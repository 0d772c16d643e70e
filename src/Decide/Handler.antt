-- ===== src/Decide/Handler.antt =====
-- backend/src/decide.rs: the handler `decided`, one function for each stretch up to the next wait. While
-- the handler waits (for the lock of the entry, oauth2-proxy, Redis, Postgres), other handlers may make
-- any calls and any changes of the cache.
use open_berat.Base.{
  ℕ, Bool, true, false, List, [], Option, none, some, if◌then◌else◌, Text, codes, ok, err,
}
use open_berat.Policy.Types.{Instant, Deny, Decision, as_str}
use open_berat.Policy.Rules.{decide}
use open_berat.Store.Channel.{AuditEvent, record_event}
use open_berat.Cache.Cookie.{session_cookie}
use open_berat.Cache.Types.{Externals, Identity, Cached, Cache}
use open_berat.Cache.Ops.{get, insert_entry, count, header_string}
use open_berat.Metrics.Counters
use open_berat.Metrics.Counters.{Metrics, outcome, cache_lookup, observe}
use open_berat.Session.Ticket.{Base64}
use open_berat.Session.World.{Call, sadd, oauth2_auth, rules_for, Services, World, after}
use open_berat.Session.Logout.{or_default, derived_key}
use open_berat.Store.Channel.{IpAddr}
use open_berat.Decide.Request.{
  HeaderMap, header, header_str, Subrequest, subrequest, lacks_context, AuthResponse, verified,
  anonymous, unavailable, authenticate, AppRules, groups_of, load,
}

pub record Response : Type 0 where
  pub status : ℕ
  pub deny_reason : Option Text
  pub identity : Option Identity
  pub set_cookie : List Text

pub record State : Type 0 where
  pub world : World
  pub metrics : Metrics

-- The clock at each point of the handler that reads it.
pub record Times : Type 0 where
  pub looked_up : Instant
  pub looked_up_again : Instant
  pub inserted : Instant
  pub decided : Instant
  pub counted : Instant
  pub recorded : Instant

-- What the handler waits for. The two answers and the steps of the other handlers are any functions of
-- what has happened.
pub record Surroundings : Type 0 where
  pub externals : Externals
  pub engine : Base64
  pub parse : Text → Option IpAddr
  pub full : ℕ → Bool
  pub services : Services
  pub auth : List Call → (cookie : Option Text) → Option AuthResponse
  pub query : List Call → (slug sub : Text) (groups : List Text) → Option (Option AppRules)
  pub at_lock : World → World
  pub at_auth : World → World
  pub at_index : World → World
  pub at_query : World → World

-- `refuse`
unfoldable pub refuse : Deny → State → State × Response
refuse reason s = (
  record s { metrics = outcome (Decision.deny reason) s.metrics },
  record { status = 403; deny_reason = some (as_str reason); identity = none; set_cookie = [] },
)

-- The answer to a decision, before the identity is written.
unfoldable pub respond : Decision → State → State × Response
respond Decision.allow s = (
  record s { metrics = outcome Decision.allow s.metrics },
  record { status = 200; deny_reason = none; identity = none; set_cookie = [] },
)
respond (Decision.deny reason) s = refuse reason s

unfoldable pub identify : Identity → Response → Response
identify identity response = record response { identity = some identity }

module _ (env : Surroundings) (times : Times) where
  -- The row of a decision that no cache entry could count.
  unfoldable pub own_event : Subrequest → Cached → Decision → AuditEvent
  own_event request cached decision = record {
    application_id = cached.application_id;
    application_slug = request.slug;
    actor_sub = or_default (env.externals.to_str cached.identity.sub);
    actor_name = header_string env.externals env.full cached.identity.username;
    decision = decision;
    count = 1;
    first_seen = times.recorded;
    last_seen = times.recorded;
    distinct_path = 1;
    first_path = request.audit_path;
    src_ip = request.src_ip;
    request_id = request.request_id;
  }

  -- The count of a decision in its entry, or its own row.
  unfoldable pub counted : Subrequest → Cached → Decision → Cache → Cache × Bool
  counted request cached decision c = elim request.key [
    | none ↦ (c, false)
    | some key ↦
        count env.externals env.full key decision request.audit_path request.src_ip
          request.request_id times.counted c
  ]

  unfoldable pub account : Subrequest → Cached → Decision → Cache → Cache
  account request cached decision c =
      let (c', in_entry) = counted request cached decision c in
      if in_entry
      then c'
      else record c' { audit = record_event env.full (own_event request cached decision) c'.audit }

  unfoldable pub verdict : Subrequest → Cached → Decision
  verdict request cached = decide cached.enabled cached.rules request.uri times.decided

  unfoldable pub answer : Subrequest → Cached → State → State × Response
  answer request cached s =
      let decision = verdict request cached in
      let cache = account request cached decision s.world.cache in
      let (s', response) =
        respond decision (record s { world = record s.world { cache = cache } }) in
      (s', identify cached.identity response)

  -- From the answer of the query on: the entry is kept, the decision made, the cookies relayed.
  unfoldable pub keep : Subrequest → (sub : Text) → Cached → State → State
  keep request sub cached s = elim request.key [
    | none ↦ s
    | some key ↦ record s {
      world = record s.world {
        cache = insert_entry env.externals env.full key sub cached times.inserted s.world.cache;
      };
    }
  ]

  unfoldable pub loaded :
      Subrequest → Identity → (sub : Text) → (set_cookie : List Text) → State → State × Response
  loaded request identity sub set_cookie s =
      let groups = groups_of env.externals identity in
      let found = env.query s.world.calls request.slug sub groups in
      let asked : State = record s {
        world = env.at_query (after (rules_for request.slug sub groups) s.world);
      } in
      elim (load identity found) [
        | err reason ↦ refuse reason asked
        | ok cached ↦
            let (s', response) = answer request cached (keep request sub cached asked) in
            (s', record response { set_cookie = set_cookie })
      ]

  -- From a verified identity on: the session is indexed before anything is decided.
  unfoldable pub indexed :
      Subrequest → Option Text → Identity → (set_cookie : List Text) → State → State × Response
  indexed request cookie identity set_cookie s =
      let sub = or_default (env.externals.to_str identity.sub) in
      elim (derived_key env.engine cookie) [
        | none ↦ refuse Deny.store_unavailable s
        | some session ↦
            let written : State = record s {
              world = env.at_index (after (sadd sub session) s.world);
            } in
            if env.services.succeeds s.world.calls (sadd sub session)
            then loaded request identity sub set_cookie written
            else refuse Deny.store_unavailable written
      ]

  -- From a lookup that found nothing on.
  unfoldable pub missed : Subrequest → HeaderMap → State → State × Response
  missed request headers s =
      let sent = header (codes "cookie") headers in
      let asked : State = record s { world = env.at_auth (after (oauth2_auth sent) s.world) } in
      elim (authenticate (env.auth s.world.calls sent)) [
        | anonymous ↦ (
          record asked { metrics = Counters.unauthenticated asked.metrics },
          record { status = 401; deny_reason = none; identity = none; set_cookie = [] },
        )
        | unavailable ↦ refuse Deny.auth_unavailable asked
        | verified identity set_cookie ↦
            indexed request (header_str env.externals headers (codes "cookie")) identity set_cookie
              asked
      ]

  -- The lookup before the lock, the lookup under it, and what follows.
  unfoldable pub decided_request : Subrequest → HeaderMap → State → State × Response
  decided_request request headers s = elim request.key [
    | none ↦ missed request headers s
    | some key ↦ elim (get env.externals env.full key times.looked_up s.world.cache) [
      | some cached ↦ answer request cached (record s { metrics = cache_lookup true s.metrics })
      | none ↦
          let locked : State = record s { world = env.at_lock s.world } in
          elim (get env.externals env.full key times.looked_up_again locked.world.cache) [
            | some cached ↦
                answer request cached (record locked { metrics = cache_lookup true s.metrics })
            | none ↦
                missed request headers (record locked { metrics = cache_lookup false s.metrics })
          ]
    ]
  ]

  unfoldable pub decided : HeaderMap → State → State × Response
  decided headers s = elim (header_str env.externals headers (codes "x-app-slug")) [
    | none ↦ refuse Deny.missing_context s
    | some slug ↦ elim (header_str env.externals headers (codes "x-original-uri")) [
      | none ↦ refuse Deny.missing_context s
      | some uri ↦
          if lacks_context headers
          then refuse Deny.missing_context s
          else elim (session_cookie (header_str env.externals headers (codes "cookie"))) [
            | err e ↦ refuse Deny.ambiguous_session s
            | ok v ↦ decided_request (subrequest env.externals env.parse headers slug uri) headers s
          ]
    ]
  ]

  -- The handler with the stopwatch around it; `elapsed` is in microseconds.
  unfoldable pub observed : HeaderMap → (elapsed : ℕ) → State → State × Response
  observed headers elapsed s =
      let (s', response) = decided headers s in
      (record s' { metrics = observe elapsed s'.metrics }, response)
