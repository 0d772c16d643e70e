-- ===== src/Policy/Order.antt =====
-- backend/src/policy.rs: which changes of a rule list change the decision.
use open_berat.Base.{
  Bool, true, not, List, ◌∷◌, map, ◌≡◌, ◌≢◌, ◌↔◌, inl, inr, Bool_ext, ok, err, Text, any, any_mono,
  filter, In, In-filter, In-filter_inv, All-In, All-intro, if◌then◌else◌,
}
use open_berat.Policy.Types.{Effect, Instant, Rule, Decision, application_disabled}
use open_berat.Policy.Uri.{readings}
use open_berat.Policy.Rules.{is_live, denies, allows, decide_path, combine, decide}
use open_berat.Policy.Verdict.{Hit, decide-allow_iff}

-- The two lists hold the same live rules.
abbrev pub SameLive : Instant → List Rule → List Rule → Type 0
SameLive now rs ss = (r : Rule) → is_live now r ≡ true → In r rs ↔ In r ss

module _ (now : Instant) (rs ss : List Rule) (same : SameLive now rs ss) where
  live_there : (r : Rule) → In r (filter (is_live now) rs) → In r (filter (is_live now) ss)
  live_there r m =
      let (n, l) = In-filter_inv (is_live now) r rs m in
      In-filter (is_live now) r ss ((same r l).0 n) l

  live_back : (r : Rule) → In r (filter (is_live now) ss) → In r (filter (is_live now) rs)
  live_back r m =
      let (n, l) = In-filter_inv (is_live now) r ss m in
      In-filter (is_live now) r rs ((same r l).1 n) l

  any-live : (p : Rule → Bool) → any p (filter (is_live now) rs) ≡ any p (filter (is_live now) ss)
  any-live p = Bool_ext _ _ (any_mono p _ _ live_there) (any_mono p _ _ live_back)

  decide_path-same : (path : Text) → decide_path rs path now ≡ decide_path ss path now
  unfolding decide_path
  decide_path-same path = rw (any-live (denies path), any-live (allows path))

  -- The decision depends on the set of the live rules alone: for two lists that hold the same live
  -- rules, in any order, with any repetitions and any expired rules, it is the same.
  pub decide-same_live :
      (app_enabled : Bool) (raw_uri : Text)
      → decide app_enabled rs raw_uri now ≡ decide app_enabled ss raw_uri now
  unfolding decide
  decide-same_live app_enabled raw_uri = λ i. elim (readings raw_uri) [
    | err reason ↦ Decision.deny reason
    | ok paths ↦
        if not app_enabled
        then Decision.deny application_disabled
        else combine (map (λ path. decide_path-same path i) paths)
  ]

Hit-cons :
    (effect : Effect) (r : Rule) (rules : List Rule) (path : Text) (now : Instant)
    → Hit effect rules path now
    → Hit effect (r ∷ rules) path now
Hit-cons effect r rules path now (s, m, l, k, h) = (s, inr m, l, k, h)

Hit-uncons :
    (effect other : Effect) (r : Rule) (rules : List Rule) (path : Text) (now : Instant)
    → r.effect ≡ other
    → other ≢ effect
    → Hit effect (r ∷ rules) path now
    → Hit effect rules path now
Hit-uncons effect other r rules path now e n (s, inl same, l, k, h) = absurd (n (cc))
Hit-uncons effect other r rules path now e n (s, inr m, l, k, h) = (s, m, l, k, h)

module _ (app_enabled : Bool) (rules : List Rule) (raw_uri : Text) (now : Instant) (r : Rule) where
  -- An allow rule takes no access away: what is allowed without it is allowed next to it.
  pub decide-add_allow :
      r.effect ≡ Effect.allow
      → decide app_enabled rules raw_uri now ≡ Decision.allow
      → decide app_enabled (r ∷ rules) raw_uri now ≡ Decision.allow
  decide-add_allow e h =
      let (on, paths, r-paths, g) = (decide-allow_iff app_enabled rules raw_uri now).0 h in
      (decide-allow_iff app_enabled (r ∷ rules) raw_uri now).1 (
        on,
        paths,
        r-paths,
        All-intro _ paths λ path m.
            let (hit, no_deny) = All-In _ path paths g m in
            (
              Hit-cons Effect.allow r rules path now hit,
              λ d. no_deny (Hit-uncons Effect.deny Effect.allow r rules path now e (λ x. cc) d),
            ),
      )

  -- A deny rule gives no access: what is allowed next to it is allowed without it.
  pub decide-add_deny :
      r.effect ≡ Effect.deny
      → decide app_enabled (r ∷ rules) raw_uri now ≡ Decision.allow
      → decide app_enabled rules raw_uri now ≡ Decision.allow
  decide-add_deny e h =
      let (on, paths, r-paths, g) = (decide-allow_iff app_enabled (r ∷ rules) raw_uri now).0 h in
      (decide-allow_iff app_enabled rules raw_uri now).1 (
        on,
        paths,
        r-paths,
        All-intro _ paths λ path m.
            let (hit, no_deny) = All-In _ path paths g m in
            (
              Hit-uncons Effect.allow Effect.deny r rules path now e (λ x. cc) hit,
              λ d. no_deny (Hit-cons Effect.deny r rules path now d),
            ),
      )
