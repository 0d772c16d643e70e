-- ===== src/Tests/Decide.antt =====
-- The handler of `/decide` and its counters at concrete inputs.
use open_berat.Base.{
  ◌+◌, true, [], ◌∷◌, none, some, ◌≡◌, ◌≤◌, ◌↔◌, In, filter, length, split_on, ok, err, Text, refl,
  arith, codes,
}
use open_berat.Cache.Cookie.{ambiguous, session_cookie}
use open_berat.Cache.Family.{in_family, IsSession, session_cookie-family}
use open_berat.Metrics.Counters.{Metrics, buckets, cumulative, observe}
use open_berat.Metrics.Totals.{at_or_under, total, observe-cumulative}
use open_berat.Policy.Types.{Effect}
use open_berat.Decide.Request.{HeaderMap}
use open_berat.Decide.Handler.{State, Times, Surroundings, decided}
use open_berat.Decide.Answers.{IsAnswer, Allowed, decided-IsAnswer, decided-Allowed, decided-total}
use open_berat.Tests.{externals, quiet, services, engine, world}

abbrev counters : Metrics
counters = record {
  allowed = 3;
  unauthenticated = 1;
  denied = 0 ∷ 0 ∷ 2 ∷ 0 ∷ 0 ∷ 0 ∷ 0 ∷ 0 ∷ [];
  hits = 0;
  misses = 0;
  latency = 0 ∷ 1 ∷ 0 ∷ 0 ∷ 0 ∷ 0 ∷ 0 ∷ 0 ∷ 1 ∷ [];
  latency_micros = 3000400;
}

observe-cumulative_example :
    cumulative 0 (observe 1500 counters).latency
    ≡ at_or_under 1500 buckets (cumulative 0 counters.latency)
observe-cumulative_example =
    observe-cumulative 1500 counters (refl, refl) (ground arith) (ground arith)

-- A browser with a session, whom oauth2-proxy knows and a rule allows.
abbrev env : Surroundings
env = record {
  externals = externals;
  engine = engine;
  parse = λ s. none;
  full = quiet;
  services = services;
  auth = λ calls cookie.
      some (record { status = 202; fields = (codes "x-auth-request-user", codes "u1") ∷ [] });
  query = λ calls slug sub groups. some (
      some (record {
        id = 7;
        enabled = true;
        rules = record { effect = Effect.allow; path_pattern = []; expires_at = none } ∷ [];
      }));
  at_lock = λ w. w;
  at_auth = λ w. w;
  at_index = λ w. w;
  at_query = λ w. w;
}

abbrev times : Times
times = record {
  looked_up = 20;
  looked_up_again = 21;
  inserted = 22;
  decided = 23;
  counted = 24;
  recorded = 25;
}

abbrev sent : HeaderMap
sent =
    (codes "x-app-slug", codes "wiki")
    ∷ (codes "x-original-uri", codes "/x")
    ∷ (codes "x-original-method", codes "GET")
    ∷ (codes "x-real-ip", codes "10.0.0.1")
    ∷ (codes "x-request-id", codes "r1")
    ∷ (codes "cookie", codes "_oauth2_proxy=c1")
    ∷ []

abbrev state : State
state = record { world = world; metrics = counters }

decided-IsAnswer_example : IsAnswer (decided env times sent state).1
decided-IsAnswer_example = decided-IsAnswer env times sent state

decided-Allowed_example : Allowed env times sent state (decided env times sent state)
decided-Allowed_example = decided-Allowed env times sent state

decided-total_example : total (decided env times sent state).0.metrics ≡ total counters + 1
decided-total_example = decided-total env times sent state (refl, refl) (ground arith)

-- A session cookie beside a chunk of one.
abbrev two_cookies : Text
two_cookies = codes "_oauth2_proxy=a; theme=dark; _oauth2_proxy_0=b"

session_cookie-family_example :
    ((session_cookie (some two_cookies) ≡ err ambiguous)
      ↔ (2 ≤ length (filter in_family (split_on b';' two_cookies))))
    × ((value : Text)
        → session_cookie (some two_cookies) ≡ ok (some value)
        → (length (filter in_family (split_on b';' two_cookies)) ≤ 1)
          × ((cookie : Text) × In cookie (split_on b';' two_cookies) × IsSession value cookie))
session_cookie-family_example = session_cookie-family two_cookies
