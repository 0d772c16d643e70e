-- ===== src/Tests.antt =====
-- The theorems at concrete inputs, and runs of the handlers.
mod Decide
mod Management
mod Configuration
mod Sessions
mod Traces
mod Writes
mod Screens
mod Directory
use mathlib.Core.List.{foldl}
use open_berat.Base.{
  ℕ, ◌+◌, ◌-◌, ◌^◌, ◌<◌, ◌≤◌, Bool, true, false, List, [], ◌∷◌, ◌++◌, Option, none, some,
  if◌then◌else◌, ◌≡◌, ◌≢◌, ◌↔◌, ◌⊎◌, inl, inr, refl, arith, Result, ok, err, Text, codes, In, All,
  length, lower, to_lower, split, before, split_once, join, strip_prefix, starts_with, ends_with,
  trim_end, trim_start, is_whitespace, trim, is_control, contains, text_eq,
}
use open_berat.Base.Assoc.{lookup, remove, insert, member, add, discard}
use open_berat.Policy.Types
use open_berat.Policy.Types.{Effect, Rule, Deny, Decision}
use open_berat.Policy.Rules.{decide}
use open_berat.Store.Channel.{Audit}
use open_berat.Cache.Cookie.{Key}
use open_berat.Cache.Types.{Externals, Identity, Cached, Entry, Cache, ttl, capacity}
use open_berat.Cache.Ops
use open_berat.Cache.Ops.{new_cache, get}
use open_berat.Cache.Coherence.{IsCoherent, owned}
use open_berat.Cache.Effects.{get-drop_sub, get-set_subscribed-true}
use open_berat.Cache.Runs.{insert_entry-le}
use open_berat.Cache.Reachable
use open_berat.Cache.Reachable.{Op, IsValid, apply, reachable-IsValid, flush_all-empty}
use open_berat.Metrics.Counters.{Metrics, buckets, cumulative, observe}
use open_berat.Metrics.Totals
use open_berat.Metrics.Totals.{at_or_under, sum, total, observe-cumulative}
use open_berat.Session.Ticket.{Base64, session_key, session_key-signature}
use open_berat.Session.World.{
  Call, Services, World, Others, Logout, drop_sessions, del_index, smembers,
}
use open_berat.Session.Kill.{kill}
use open_berat.Session.Kill.Window.{tasks_at}
use open_berat.Session.Kill.Steps.{made, found, behind_answer, kill-steps}
use open_berat.Session.Logout.{
  Answer, Headers, Caller, caller_from, derived_key, logout, logout_steps,
}
use open_berat.Session.Logout.Steps as LogoutSteps
use open_berat.Session.Logout.Steps.{logout-made}

abbrev pub externals : Externals
externals = record { digest = λ s. s; hash_path = length; to_str = some }

abbrev pub quiet : ℕ → Bool
quiet n = false

abbrev pub key_one : Key
key_one = record { cookie = codes "c1"; slug = codes "wiki" }

abbrev pub cached_one : Cached
cached_one = record {
  identity = record {
    sub = codes "u1";
    username = codes "ann";
    email = [];
    groups = codes "staff";
  };
  rules = record { effect = Effect.allow; path_pattern = []; expires_at = none } ∷ [];
  enabled = true;
  application_id = some 7;
}

abbrev pub silent : Audit
silent = record { sent = []; attempts = 0; dropped = 0 }

-- A subscription, an insertion and a count.
abbrev pub some_ops : List Op
some_ops =
    Op.set_subscribed true
    ∷ Op.insert_entry key_one (codes "u1") cached_one 10
    ∷ Op.count key_one Decision.allow (codes "/x") none none 12
    ∷ []

reachable-IsValid_example :
    IsValid externals quiet (foldl (apply externals quiet) (new_cache silent) some_ops)
reachable-IsValid_example = reachable-IsValid externals quiet silent some_ops

abbrev pub filled : Cache
filled = foldl (apply externals quiet) (new_cache silent) some_ops

filled-IsCoherent : IsCoherent filled
filled-IsCoherent = (reachable-IsValid externals quiet silent some_ops).coherent

-- Services that succeed, with one session in the index.
abbrev pub services : Services
services = record {
  succeeds = λ before call. true;
  logout = λ before sub. Logout.done;
  members = λ before sub. codes "_oauth2_proxy-1" ∷ [];
}

abbrev pub world : World
world = record { calls = []; cache = filled }

-- While a handler waits, another task puts in an entry of the subject.
abbrev pub refill : List Call → List Op
refill calls = Op.insert_entry key_one (codes "u1") cached_one 15 ∷ []

abbrev pub others : Others
others = tasks_at externals quiet silent refill

kill-steps_example :
    ((kill services others externals quiet (codes "u1") world).0.calls
      ≡ world.calls
        ++ made
            (codes "u1")
            (found services others externals quiet (codes "u1") world)
            (kill services others externals quiet (codes "u1") world).1)
    × ((kill services others externals quiet (codes "u1") world).0.cache
        ≡ behind_answer services others externals quiet
            (codes "u1")
            world
            (kill services others externals quiet (codes "u1") world).1)
kill-steps_example = kill-steps services others externals quiet (codes "u1") world

-- A decoder that reads one ticket, and any handle as one session.
abbrev pub engine : Base64
engine = record {
  url_safe_no_pad =
      λ s. some (if text_eq s (codes "ab") then codes "v2.x.y" else codes "_oauth2_proxy-1");
  standard_no_pad = λ s. none;
  standard = λ s. none;
}

abbrev portal : Text
portal = codes "https://portal.example"

abbrev pub headers : Headers
headers = record {
  subject = some (codes "u1");
  username = some (codes "ann");
  email = none;
  groups = some (codes "staff,admins");
  origin = some portal;
  has_cookie = true;
  cookie = some (codes "_oauth2_proxy=ab|s1");
}

abbrev logged_out : World × Answer
logged_out = logout services others externals engine quiet portal headers world

logout-made_example :
    (logged_out.0 ≡ world)
    ⊎ ((caller : Caller) × (key : Text) × (caller_from headers ≡ some caller)
        × (headers.origin ≡ some portal)
        × (derived_key engine headers.cookie ≡ some key)
        × (logged_out ≡ logout_steps services others externals quiet caller.sub key world)
        × (logged_out.0.calls ≡ world.calls ++ LogoutSteps.made caller.sub key logged_out.1)
        × (logged_out.0.cache
            ≡ LogoutSteps.behind_answer services others externals quiet caller.sub key world
                logged_out.1))
logout-made_example = logout-made services others externals quiet engine portal headers world
