-- ===== src/Decide/Answers.antt =====
-- backend/src/decide.rs: what the handler answers, what an allowed request rests on, and that every
-- request is counted once.
use open_berat.Base.{
  ℕ, ◌+◌, ◌^◌, ◌<◌, Bool, false, none, some, Text, codes, err, ◌≡◌, ◌≢◌, refl, arith, ◌⊎◌, inl, inr,
  Option-cases, Bool-cases, Result-cases, ◌∙◌,
}
use open_berat.Policy.Types.{Deny, Decision, as_str}
use open_berat.Policy.Rules.{decide}
use open_berat.Cache.Cookie.{session_cookie, ambiguous}
use open_berat.Cache.Types.{Cached}
use open_berat.Metrics.Counters.{Metrics, outcome, cache_lookup}
use open_berat.Metrics.Totals.{
  IsValid, total, total-outcome, total-unauthenticated, total-cache_lookup, cache_lookup-IsValid,
}
use open_berat.Decide.Request.{HeaderMap, header_str, Subrequest, subrequest, lacks_context}
use open_berat.Decide.Handler.{
  Response, State, Times, Surroundings, refuse, respond, identify, verdict, answer, decided_request,
  decided,
}
use open_berat.Decide.Outcome.{FromCache, FromSession, decided_request-rule}

Decision-cases :
    (d : Decision) → (d ≡ Decision.allow) ⊎ ((reason : Deny) × (d ≡ Decision.deny reason))
Decision-cases Decision.allow = inl refl
Decision-cases (Decision.deny reason) = inr (reason, refl)

-- An answer allows, sends to the login, or refuses with a reason.
abbrev pub IsAnswer : Response → Type 0
IsAnswer response =
    ((response.status ≡ 200) × (response.deny_reason ≡ none))
    ⊎ ((response.status ≡ 401) × (response.deny_reason ≡ none))
    ⊎ ((reason : Deny) × (response.status ≡ 403) × (response.deny_reason ≡ some (as_str reason)))

module _ (env : Surroundings) (times : Times) (headers : HeaderMap) where
  -- A request that has all that the include writes, and no two session cookies.
  abbrev pub IsRead : Subrequest → Type 0
  IsRead request =
      (slug : Text) × (uri : Text) × (header_str env.externals headers (codes "x-app-slug")
        ≡ some slug)
      × (header_str env.externals headers (codes "x-original-uri") ≡ some uri)
      × (lacks_context headers ≡ false)
      × (session_cookie (header_str env.externals headers (codes "cookie")) ≢ err ambiguous)
      × (request ≡ subrequest env.externals env.parse headers slug uri)

  -- What an allowed request rests on, by the state that its handler started with.
  abbrev pub Allowed : (start : State) → State × Response → Type 0
  Allowed start (s, response) =
      response.status ≡ 200
      → (request : Subrequest) × (cached : Cached) × IsRead request
        × (decide cached.enabled cached.rules request.uri times.decided ≡ Decision.allow)
        × (response.identity ≡ some cached.identity)
        × (FromCache env times headers start request cached
            ⊎ FromSession env times headers start request cached)

  module _ (P : State × Response → Type 0) (s : State)
      (on_refuse : (reason : Deny) → P (refuse reason s))
      (on_request : (request : Subrequest)
        → IsRead request
        → P (decided_request env times request headers s)) where
    decided-rule : P (decided env times headers s)
    unfolding decided
    decided-rule = elim (Option-cases (header_str env.externals headers (codes "x-app-slug"))) [
      | inl e ↦ rw (e, decided) (on_refuse Deny.missing_context)
      | inr (slug, e) ↦
          elim (Option-cases (header_str env.externals headers (codes "x-original-uri"))) [
            | inl f ↦ rw (e, f, decided) (on_refuse Deny.missing_context)
            | inr (uri, f) ↦ elim (Bool-cases (lacks_context headers)) [
              | inl g ↦ rw (e, f, g, decided) (on_refuse Deny.missing_context)
              | inr g ↦
                  elim (Result-cases
                    (session_cookie (header_str env.externals headers (codes "cookie")))) [
                      | inr (a, i) ↦ rw (e, f, g, i, decided) (on_refuse Deny.ambiguous_session)
                      | inl (v, i) ↦
                          rw (e, f, g, i, decided)
                            (on_request _ (slug, uri, e, f, g, (λ k. absurd (ground arith)), refl))
                    ]
            ]
          ]
    ]

  answer-IsAnswer :
      (request : Subrequest) (cached : Cached) (s : State)
      → IsAnswer (answer env times request cached s).1
  unfolding answer respond refuse identify
  answer-IsAnswer request cached s = elim (Decision-cases (verdict env times request cached)) [
    | inl e ↦ rw (e, answer) (inl (refl, refl))
    | inr (reason, e) ↦ rw (e, answer) (inr (inr (reason, refl, refl)))
  ]

  -- Whatever the other handlers do and whatever the services answer, the handler answers 200, 401, or
  -- 403 with one of the named reasons: never anything else, an outage included.
  pub decided-IsAnswer : (s : State) → IsAnswer (decided env times headers s).1
  unfolding refuse
  decided-IsAnswer s =
      decided-rule (λ r. IsAnswer r.1) s (λ reason. inr (inr (reason, refl, refl)))
        (λ request read.
          decided_request-rule env times headers s (λ m. Unit) (λ r. IsAnswer r.1) (λ hit m q. tt)
            (λ reason t q. inr (inr (reason, refl, refl))) (λ t q. inr (inl (refl, refl))) request
            (λ cached t q from. answer-IsAnswer request cached t)
            (λ cached set_cookie t q from. answer-IsAnswer request cached t) tt)

  answer-allowed :
      (request : Subrequest) (cached : Cached) (s : State)
      → (answer env times request cached s).1.status ≡ 200
      → (decide cached.enabled cached.rules request.uri times.decided ≡ Decision.allow)
        × ((answer env times request cached s).1.identity ≡ some cached.identity)
  unfolding answer respond refuse identify verdict
  answer-allowed request cached s h =
      elim (Decision-cases (decide cached.enabled cached.rules request.uri times.decided)) [
        | inl e ↦ (e, ground arith)
        | inr (reason, e) ↦ absurd (ground arith)
      ]

  -- A request is answered 200 only if it was read completely, the policy allows its URI at the time of
  -- the decision by the rules at hand, and these come from one of three places: the cache as the handler
  -- found it serves them for the key of the request; it does not, but the cache behind the lock of the
  -- entry does; or neither lookup found any (or the request has no key), oauth2-proxy verified an identity
  -- for the cookie of this request, then the index of the kill switch took its session, and then the query
  -- for the subject and the groups of that identity gave them. The identity in the answer is the one that
  -- the rules are for.
  pub decided-Allowed : (s : State) → Allowed s (decided env times headers s)
  unfolding refuse
  decided-Allowed s =
      decided-rule (Allowed s) s (λ reason h. absurd (ground arith))
        (λ request read.
          decided_request-rule env times headers s (λ m. Unit) (Allowed s) (λ hit m q. tt)
            (λ reason t q h. absurd (ground arith)) (λ t q h. absurd (ground arith)) request
            (λ cached t q from h.
              let (allows, named) = answer-allowed request cached t h in
              (request, cached, read, allows, named, inl from))
            (λ cached set_cookie t q from h.
              let (allows, named) = answer-allowed request cached t h in
              (request, cached, read, allows, named, inr from))
            tt)

  -- The counters up to the answer.
  module _ (n : ℕ) (h : n + 1 < 2 ^ 64) where
    abbrev Waiting : Metrics → Type 0
    Waiting m = IsValid m × (total m ≡ n)

    Waiting-lookup : (hit : Bool) (m : Metrics) → Waiting m → Waiting (cache_lookup hit m)
    Waiting-lookup hit m (v, e) = (cache_lookup-IsValid hit m v, total-cache_lookup hit m ∙ e)

    outcome-total : (d : Decision) (m : Metrics) → Waiting m → total (outcome d m) ≡ n + 1
    outcome-total d m (v, e) = ground (arith, total-outcome d m v)

    answer-total :
        (request : Subrequest) (cached : Cached) (s : State)
        → Waiting s.metrics
        → total (answer env times request cached s).0.metrics ≡ n + 1
    unfolding answer respond refuse
    answer-total request cached s w = elim (Decision-cases (verdict env times request cached)) [
      | inl e ↦ rw (e, answer) (outcome-total Decision.allow s.metrics w)
      | inr (reason, e) ↦ rw (e, answer) (outcome-total (Decision.deny reason) s.metrics w)
    ]

    Waiting-total :
        (s : State) → Waiting s.metrics → total (decided env times headers s).0.metrics ≡ n + 1
    unfolding refuse
    Waiting-total s w =
        decided-rule (λ r. total r.0.metrics ≡ n + 1) s
          (λ reason. outcome-total (Decision.deny reason) s.metrics w)
          (λ request read.
            decided_request-rule env times headers s Waiting (λ r. total r.0.metrics ≡ n + 1)
              Waiting-lookup (λ reason t q. outcome-total (Decision.deny reason) t.metrics q)
              (λ t q. ground (arith, total-unauthenticated t.metrics)) request
              (λ cached t q from. answer-total request cached t q)
              (λ cached set_cookie t q from. answer-total request cached t q) w)

  -- With the arrays of the right lengths and short of a wrap-around, every request to the handler
  -- steps the counters of the outcomes (allowed, unauthenticated, and denied by reason) by one in
  -- total, on every way through it.
  pub decided-total :
      (s : State)
      → IsValid s.metrics
      → total s.metrics + 1 < 2 ^ 64
      → total (decided env times headers s).0.metrics ≡ total s.metrics + 1
  decided-total s v h = Waiting-total (total s.metrics) h s (v, refl)
