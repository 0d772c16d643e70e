-- ===== src/Policy/Verdict.antt =====
-- backend/src/policy.rs: what `decide_path` and `decide` answer, against a specification in terms of
-- single rules.
use open_berat.Base.{
  Bool, true, false, List, map, ◌≡◌, ◌↔◌, ◌⊎◌, inl, inr, refl, subst, sym, ◌∙◌, arith, Bool-cases,
  Option-cases, ok, Result-cases, Text, any, any_intro, any_elim, find, find-eq-some, find-eq-none,
  filter, In, In-filter, In-filter_inv, In-map, In-map_inv, All, All-In, All-intro, &&-eq-true,
}
use open_berat.Policy.Types.{Effect, Instant, Rule, Decision, explicit_deny}
use open_berat.Policy.Uri.{readings}
use open_berat.Policy.Malformed.{readings-err}
use open_berat.Policy.Rules.{
  matches, is_live, is_deny, is_allow, denies, allows, decide_path, is_explicit, is_refusal,
  combine, decide,
}

-- A live rule of the list, with the given effect, that matches the path.
abbrev pub Hit : Effect → List Rule → Text → Instant → Type 0
Hit effect rules path now =
    (r : Rule) × In r rules
    × (is_live now r ≡ true)
    × (r.effect ≡ effect)
    × (matches r.path_pattern path ≡ true)

is_deny-eq : (e : Effect) → is_deny e ≡ true → e ≡ Effect.deny
is_deny-eq Effect.deny h = refl
is_deny-eq Effect.allow h = cc

is_allow-eq : (e : Effect) → is_allow e ≡ true → e ≡ Effect.allow
is_allow-eq Effect.allow h = refl
is_allow-eq Effect.deny h = cc

-- The searches of `decide_path` find exactly the hits of their effect.
any-denies_iff :
    (rules : List Rule) (path : Text) (now : Instant)
    → (any (denies path) (filter (is_live now) rules) ≡ true) ↔ Hit Effect.deny rules path now
unfolding denies
any-denies_iff rules path now = (found, search_finds)
  where
    found : any (denies path) (filter (is_live now) rules) ≡ true → Hit Effect.deny rules path now
    found h =
        let (r, m, d) = any_elim (denies path) (filter (is_live now) rules) h in
        let (n, l) = In-filter_inv (is_live now) r rules m in
        let (e, k) = &&-eq-true {a = is_deny r.effect} {b = matches r.path_pattern path} d in
        (r, n, l, is_deny-eq r.effect e, k)

    search_finds :
        Hit Effect.deny rules path now → any (denies path) (filter (is_live now) rules) ≡ true
    search_finds (r, m, l, e, k) =
        any_intro (denies path) r _ (In-filter (is_live now) r rules m l) (simp (e, k))

any-allows_iff :
    (rules : List Rule) (path : Text) (now : Instant)
    → (any (allows path) (filter (is_live now) rules) ≡ true) ↔ Hit Effect.allow rules path now
unfolding allows
any-allows_iff rules path now = (found, search_finds)
  where
    found : any (allows path) (filter (is_live now) rules) ≡ true → Hit Effect.allow rules path now
    found h =
        let (r, m, d) = any_elim (allows path) (filter (is_live now) rules) h in
        let (n, l) = In-filter_inv (is_live now) r rules m in
        let (e, k) = &&-eq-true {a = is_allow r.effect} {b = matches r.path_pattern path} d in
        (r, n, l, is_allow-eq r.effect e, k)

    search_finds :
        Hit Effect.allow rules path now → any (allows path) (filter (is_live now) rules) ≡ true
    search_finds (r, m, l, e, k) =
        any_intro (allows path) r _ (In-filter (is_live now) r rules m l) (simp (e, k))

-- What it takes for a path to be allowed.
abbrev pub Granted : List Rule → Text → Instant → Type 0
Granted rules path now = Hit Effect.allow rules path now × (¬ Hit Effect.deny rules path now)

false_of-not : {b : Bool} → ¬ (b ≡ true) → b ≡ false
false_of-not {b} f = elim (Bool-cases b) [ inl t ↦ absurd (f t) | inr e ↦ e ]

decide_path-allow :
    (rules : List Rule) (path : Text) (now : Instant)
    → decide_path rules path now ≡ Decision.allow
    → Granted rules path now
unfolding decide_path
decide_path-allow rules path now h = (
  (any-allows_iff rules path now).0 (ground arith),
  λ hit. absurd (ground (arith, (any-denies_iff rules path now).1 hit)),
)

decide_path_of_Granted :
    (rules : List Rule) (path : Text) (now : Instant)
    → Granted rules path now
    → decide_path rules path now ≡ Decision.allow
unfolding decide_path
decide_path_of_Granted rules path now (a, d) = rw (
  false_of-not (λ t. d ((any-denies_iff rules path now).0 t)),
  (any-allows_iff rules path now).1 a,
)

decide_path-explicit_iff :
    (rules : List Rule) (path : Text) (now : Instant)
    → (decide_path rules path now ≡ Decision.deny explicit_deny) ↔ Hit Effect.deny rules path now
unfolding decide_path
decide_path-explicit_iff rules path now = (
  λ h. (any-denies_iff rules path now).0 (ground arith),
  λ hit. rw ((any-denies_iff rules path now).1 hit),
)

is_explicit-eq : (d : Decision) → is_explicit d ≡ true → d ≡ Decision.deny explicit_deny
is_explicit-eq d h = ground arith

is_refusal-eq_false : (d : Decision) → is_refusal d ≡ false → d ≡ Decision.allow
is_refusal-eq_false d h = ground arith

combine-cases :
    (ds : List Decision)
    → (In (Decision.deny explicit_deny) ds × (combine ds ≡ Decision.deny explicit_deny))
      ⊎ ((¬ In (Decision.deny explicit_deny) ds)
          × (d : Decision) × In d ds
          × (is_refusal d ≡ true)
          × (combine ds ≡ d))
      ⊎ (All (λ d. d ≡ Decision.allow) ds × (combine ds ≡ Decision.allow))
unfolding combine
combine-cases ds = elim (Option-cases (find is_explicit ds)) [
  | inr (d, f) ↦
      let (m, e) = find-eq-some is_explicit ds f in
      let same = is_explicit-eq d e in inl (rw same at m, ground arith)
  | inl f ↦
      let absent : ¬ In (Decision.deny explicit_deny) ds = λ m.
        absurd (ground (arith, find-eq-none is_explicit (Decision.deny explicit_deny) ds f m)) in
      elim (Option-cases (find is_refusal ds)) [
        | inr (d, g) ↦
            let (m, e) = find-eq-some is_refusal ds g in inr (inl (absent, d, m, e, ground arith))
        | inl g ↦ inr (
            inr (
              All-intro _ ds (λ d m. is_refusal-eq_false d (find-eq-none is_refusal d ds g m)),
              ground arith,
            ))
      ]
]

combine-allow :
    (ds : List Decision)
    → combine ds ≡ Decision.allow
    → (d : Decision) → In d ds
    → d ≡ Decision.allow
combine-allow ds h d m = elim (combine-cases ds) [
  | inl (_, e) ↦ cc
  | inr (inl (_, d', _, r, e)) ↦ absurd (ground arith)
  | inr (inr (a, _)) ↦ All-In _ d ds a m
]

combine_of_allow :
    (ds : List Decision)
    → ((d : Decision) → In d ds → d ≡ Decision.allow)
    → combine ds ≡ Decision.allow
combine_of_allow ds f = elim (combine-cases ds) [
  | inl (m, _) ↦ absurd (ground (arith, f (Decision.deny explicit_deny) m))
  | inr (inl (_, d, m, r, _)) ↦ absurd (ground (arith, f d m))
  | inr (inr (_, e)) ↦ e
]

combine-explicit_iff :
    (ds : List Decision)
    → (combine ds ≡ Decision.deny explicit_deny) ↔ In (Decision.deny explicit_deny) ds
combine-explicit_iff ds = elim (combine-cases ds) [
  | inl (m, e) ↦ (λ _. m, λ _. e)
  | inr (inl (n, d, m, r, e)) ↦ (λ h. subst (λ x. In x ds) (sym e ∙ h) m, λ k. absurd (n k))
  | inr (inr (a, e)) ↦
      (λ h. cc, λ k. absurd (ground (arith, All-In _ (Decision.deny explicit_deny) ds a k)))
]

module _ (app_enabled : Bool) (rules : List Rule) (raw_uri : Text) (now : Instant) where
  -- Every reading of the URI satisfies `P`, and the application is enabled.
  abbrev pub Everywhere : (Text → Type 0) → Type 0
  Everywhere P =
      (app_enabled ≡ true) × (paths : List Text) × (readings raw_uri ≡ ok paths) × All P paths

  abbrev pub Somewhere : (Text → Type 0) → Type 0
  Somewhere P =
      (app_enabled ≡ true)
      × (paths : List Text) × (path : Text) × (readings raw_uri ≡ ok paths)
      × In path paths
      × P path

  abbrev verdict : Text → Decision
  verdict path = decide_path rules path now

  decide-combine :
      (paths : List Text)
      → app_enabled ≡ true
      → readings raw_uri ≡ ok paths
      → decide app_enabled rules raw_uri now ≡ combine (map verdict paths)
  unfolding decide
  decide-combine paths on r = ground arith

  decide_sound :
      decide app_enabled rules raw_uri now ≡ Decision.allow
      → Everywhere (λ path. Granted rules path now)
  unfolding decide
  decide_sound h = elim (Result-cases (readings raw_uri)) [
    | inr (e, r) ↦ absurd (ground arith)
    | inl (paths, r) ↦
        let on : app_enabled ≡ true = ground arith in
        let all_allow : combine (map verdict paths) ≡ Decision.allow = ground arith in
        (
          on,
          paths,
          r,
          All-intro _ paths λ path m. decide_path-allow rules path now (
              combine-allow (map verdict paths) all_allow (verdict path)
                (In-map verdict path paths m)),
        )
  ]

  decide_complete :
      Everywhere (λ path. Granted rules path now)
      → decide app_enabled rules raw_uri now ≡ Decision.allow
  decide_complete (on, paths, r, g) =
      decide-combine paths on r
      ∙ combine_of_allow (map verdict paths) λ d m.
        let (path, k, e) = In-map_inv verdict d paths m in
        sym e ∙ decide_path_of_Granted rules path now (All-In _ path paths g k)

  -- Allowed means exactly: the application is enabled, and every reading of the URI is matched by a
  -- live allow rule and by no live deny rule.
  pub decide-allow_iff :
      (decide app_enabled rules raw_uri now ≡ Decision.allow)
      ↔ Everywhere (λ path. Granted rules path now)
  decide-allow_iff = (decide_sound, decide_complete)

  explicit_sound :
      decide app_enabled rules raw_uri now ≡ Decision.deny explicit_deny
      → Somewhere (λ path. Hit Effect.deny rules path now)
  unfolding decide
  explicit_sound h = elim (Result-cases (readings raw_uri)) [
    | inr (e, r) ↦ absurd (ground (arith, readings-err raw_uri r))
    | inl (paths, r) ↦
        let on : app_enabled ≡ true = ground arith in
        let found : combine (map verdict paths) ≡ Decision.deny explicit_deny = ground arith in
        let (path, m, e) =
          In-map_inv verdict (Decision.deny explicit_deny) paths
            ((combine-explicit_iff (map verdict paths)).0 found) in
        (on, paths, path, r, m, (decide_path-explicit_iff rules path now).0 e)
  ]

  explicit_complete :
      Somewhere (λ path. Hit Effect.deny rules path now)
      → decide app_enabled rules raw_uri now ≡ Decision.deny explicit_deny
  explicit_complete (on, paths, path, r, m, hit) =
      decide-combine paths on r
      ∙ (combine-explicit_iff (map verdict paths)).1 (
          subst (λ d. In d (map verdict paths)) ((decide_path-explicit_iff rules path now).1 hit)
            (In-map verdict path paths m))

  -- An explicit deny is answered exactly when the application is enabled, the URI has its readings,
  -- and some reading is matched by a live deny rule, whatever the other rules and readings are.
  pub decide-explicit_deny_iff :
      (decide app_enabled rules raw_uri now ≡ Decision.deny explicit_deny)
      ↔ Somewhere (λ path. Hit Effect.deny rules path now)
  decide-explicit_deny_iff = (explicit_sound, explicit_complete)
