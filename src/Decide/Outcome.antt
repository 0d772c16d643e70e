-- ===== src/Decide/Outcome.antt =====
-- backend/src/decide.rs: the ways through the handler, as a rule for the proofs about it.
use open_berat.Base.{
  Bool, true, false, List, [], none, some, Text, codes, ok, ◌≡◌, refl, arith, ◌⊎◌, subst, inl, inr,
  Option-cases, Bool-cases, Result-cases, sym, Option, ap,
}
use open_berat.Policy.Types.{Deny}
use open_berat.Cache.Cookie.{Key}
use open_berat.Cache.Types.{Identity, Cached}
use open_berat.Cache.Ops.{get}
use open_berat.Metrics.Counters
use open_berat.Metrics.Counters.{Metrics, cache_lookup}
use open_berat.Session.World.{sadd, oauth2_auth, World, after}
use open_berat.Session.Logout.{or_default, derived_key}
use open_berat.Decide.Request.{
  HeaderMap, header, header_str, Subrequest, Authentication, verified, anonymous, unavailable,
  authenticate, groups_of, load,
}
use open_berat.Decide.Handler.{
  Response, State, Times, Surroundings, refuse, answer, keep, loaded, indexed, missed,
  decided_request,
}

Authentication-cases :
    (a : Authentication)
    → (a ≡ anonymous)
      ⊎ (a ≡ unavailable)
      ⊎ ((identity : Identity) × (set_cookie : List Text) × (a ≡ verified identity set_cookie))
Authentication-cases anonymous = inl refl
Authentication-cases unavailable = inr (inl refl)
Authentication-cases (verified identity set_cookie) = inr (inr (identity, set_cookie, refl))

module _ (env : Surroundings) (times : Times) (headers : HeaderMap) (start : State) where
  -- The services and the cache as the handler finds them once it holds the lock of the entry; without a
  -- key there is no lock.
  abbrev pub locked : Option Key → World
  locked none = start.world
  locked (some key) = env.at_lock start.world

  -- Both lookups found nothing; without a key there are none.
  abbrev pub Missed : Option Key → Type 0
  Missed none = Unit
  Missed (some key) =
      (get env.externals env.full key times.looked_up start.world.cache ≡ none)
      × (get env.externals env.full key times.looked_up_again (locked (some key)).cache ≡ none)

  -- What an answer rests on: the cache that the handler started with serves it, or the cache behind the
  -- lock does where the first did not, or ...
  abbrev pub FromCache : Subrequest → Cached → Type 0
  FromCache request cached =
      (key : Key) × (request.key ≡ some key)
      × ((get env.externals env.full key times.looked_up start.world.cache ≡ some cached)
          ⊎ ((get env.externals env.full key times.looked_up start.world.cache ≡ none)
              × (get env.externals env.full key times.looked_up_again (locked (some key)).cache
                  ≡ some cached)))

  -- The services and the cache behind the answer of oauth2-proxy, and behind the write to the index.
  abbrev pub authenticated : Option Key → World
  authenticated key =
      env.at_auth (after (oauth2_auth (header (codes "cookie") headers)) (locked key))

  abbrev pub written : Option Key → (sub session : Text) → World
  written key sub session = env.at_index (after (sadd sub session) (authenticated key))

  -- ... neither does, oauth2-proxy has verified the identity in this request, the index took its session
  -- behind that, and the database answered about it behind the index.
  abbrev pub FromSession : Subrequest → Cached → Type 0
  FromSession request cached =
      Missed request.key
      × (identity : Identity) × (set_cookie : List Text) × (session : Text) × (authenticate
            (env.auth (locked request.key).calls (header (codes "cookie") headers))
          ≡ verified identity set_cookie)
      × (derived_key env.engine (header_str env.externals headers (codes "cookie")) ≡ some session)
      × (env.services.succeeds (authenticated request.key).calls
            (sadd (or_default (env.externals.to_str identity.sub)) session)
          ≡ true)
      × (load identity (
            env.query
              (written request.key (or_default (env.externals.to_str identity.sub)) session).calls
              request.slug (or_default (env.externals.to_str identity.sub))
              (groups_of env.externals identity))
          ≡ ok cached)

  -- Whatever holds of each kind of answer, where `Q` holds of the counters up to there, holds of the
  -- handler.
  module _ (Q : Metrics → Type 0) (P : State × Response → Type 0)
      (on_lookup : (hit : Bool) (m : Metrics) → Q m → Q (cache_lookup hit m))
      (on_refuse : (reason : Deny) (s : State) → Q s.metrics → P (refuse reason s))
      (on_anonymous : (s : State)
        → Q s.metrics
        → P (
          record s { metrics = Counters.unauthenticated s.metrics },
          record { status = 401; deny_reason = none; identity = none; set_cookie = [] },
        )) where
    module _ (request : Subrequest)
        (on_cache : (cached : Cached) (s : State)
          → Q s.metrics
          → FromCache request cached
          → P (answer env times request cached s))
        (on_session : (cached : Cached) (set_cookie : List Text) (s : State)
          → Q s.metrics
          → FromSession request cached
          → P (
            (answer env times request cached s).0,
            record (answer env times request cached s).1 { set_cookie = set_cookie },
          )) where
      keep-metrics :
          (sub : Text) (cached : Cached) (s : State)
          → (keep env times request sub cached s).metrics ≡ s.metrics
      unfolding keep
      keep-metrics sub cached s = elim (Option-cases request.key) [
        | inl e ↦ ground arith
        | inr (key, e) ↦ ground arith
      ]

      loaded-rule :
          (identity : Identity) (sub : Text) (set_cookie : List Text) (s : State)
          → Q s.metrics
          → ((cached : Cached)
              → load identity
                  (env.query s.world.calls request.slug sub (groups_of env.externals identity))
                ≡ ok cached
              → FromSession request cached)
          → P (loaded env times request identity sub set_cookie s)
      unfolding loaded
      loaded-rule identity sub set_cookie s q from =
          elim (Result-cases (
            load identity
              (env.query s.world.calls request.slug sub (groups_of env.externals identity)))) [
                | inr (reason, e) ↦ rw (e, loaded) (on_refuse reason _ q)
                | inl (cached, e) ↦
                    rw (e, loaded)
                      (on_session cached set_cookie _ (subst Q (sym (keep-metrics sub cached _)) q)
                        (from cached e))
              ]

      indexed-rule :
          (identity : Identity) (set_cookie : List Text) (s : State)
          → Q s.metrics
          → s.world ≡ authenticated request.key
          → Missed request.key
          → authenticate (env.auth (locked request.key).calls (header (codes "cookie") headers))
            ≡ verified identity set_cookie
          → P (
              indexed env times request
                (header_str env.externals headers (codes "cookie"))
                identity
                set_cookie
                s)
      unfolding indexed
      indexed-rule identity set_cookie s q here miss e =
          let sub = or_default (env.externals.to_str identity.sub) in
          elim (Option-cases
            (derived_key env.engine (header_str env.externals headers (codes "cookie")))) [
              | inl f ↦ rw (f, indexed) (on_refuse Deny.store_unavailable _ q)
              | inr (session, f) ↦
                  elim (Bool-cases (env.services.succeeds s.world.calls (sadd sub session))) [
                    | inr g ↦ rw (f, g, indexed) (on_refuse Deny.store_unavailable _ q)
                    | inl g ↦
                        rw (f, g, indexed)
                          (loaded-rule identity sub set_cookie _ q (λ cached i. (
                            miss,
                            identity,
                            set_cookie,
                            session,
                            e,
                            f,
                            rw here at g,
                            rw here at i,
                          )))
                  ]
            ]

      missed-rule :
          (s : State)
          → Q s.metrics
          → s.world ≡ locked request.key
          → Missed request.key
          → P (missed env times request headers s)
      unfolding missed
      missed-rule s q here miss =
          let sent = header (codes "cookie") headers in
          elim (Authentication-cases (authenticate (env.auth s.world.calls sent))) [
            | inl e ↦ rw (e, missed) (on_anonymous _ q)
            | inr (inl e) ↦ rw (e, missed) (on_refuse Deny.auth_unavailable _ q)
            | inr (inr (identity, set_cookie, e)) ↦
                rw (e, missed)
                  (indexed-rule identity set_cookie _ q
                    (ap (λ (w : World). env.at_auth (after (oauth2_auth sent) w)) here) miss
                    (rw here at e))
          ]

      pub decided_request-rule :
          Q start.metrics → P (decided_request env times request headers start)
      unfolding decided_request
      decided_request-rule q = elim (Option-cases request.key) [
        | inl e ↦ simp (e, decided_request) (missed-rule start q (rw e refl) (rw e tt))
        | inr (key, e) ↦
            elim (Option-cases (get env.externals env.full key times.looked_up start.world.cache)) [
              | inr (cached, f) ↦
                  simp (e, f, decided_request)
                    (on_cache cached _ (on_lookup true start.metrics q) (key, e, inl f))
              | inl f ↦
                  elim (Option-cases (
                    get env.externals env.full key times.looked_up_again
                      (env.at_lock start.world).cache)) [
                        | inr (cached, g) ↦
                            simp (e, f, g, decided_request)
                              (on_cache cached _ (on_lookup true start.metrics q)
                                (key, e, inr (f, g)))
                        | inl g ↦
                            simp (e, f, g, decided_request)
                              (missed-rule _ (on_lookup false start.metrics q) (rw e refl)
                                (rw e (f, g)))
                      ]
            ]
      ]
