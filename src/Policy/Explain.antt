-- ===== src/Policy/Explain.antt =====
-- backend/src/policy.rs: the annotation of `explain` against the decision.
use open_berat.Base.{
  ℕ, Bool, true, false, List, [], ◌∷◌, some, ◌≡◌, inl, inr, refl, ap, ◌∙◌, arith, ok, Result-cases,
  Text, In, All-In, get_elem?, In-position, In-of_position, get_elem?-map, Bool-cases, before, not,
}
use open_berat.Policy.Types.{Effect, Instant, Rule, Decision}
use open_berat.Policy.Uri.{normalise, readings, decode_resolved, resolve, unparametered}
use open_berat.Policy.Rules.{matches, is_live, explain, trace_rule, RuleTrace}
use open_berat.Policy.Verdict.{decide-allow_iff}

-- The first reading of a URI is its normal form.
pub readings-normalise :
    (raw_uri : Text) {paths : List Text}
    → readings raw_uri ≡ ok paths
    → (path : Text) × (normalise raw_uri ≡ ok path) × In path paths
unfolding readings
readings-normalise raw_uri {paths} h = elim (Result-cases (normalise raw_uri)) [
  | inr (e, n) ↦ absurd (ground arith)
  | inl (path, n) ↦ elim (Result-cases (decode_resolved (resolve (before b'?' raw_uri)))) [
    | inr (e, d) ↦ absurd (ground arith)
    | inl (second, d) ↦
        elim (Result-cases (decode_resolved (resolve (unparametered (before b'?' raw_uri))))) [
          | inr (e, f) ↦ absurd (ground arith)
          | inl (third, f) ↦
              let shape : path ∷ second ∷ third ∷ [] ≡ paths = ground arith in
              (path, n, rw (← shape) (inl refl))
        ]
  ]
]

-- A row of the explain screen that matched and has not expired is a hit.
trace_rule-live :
    (path : Text) (now : Instant) (r : Rule)
    → (trace_rule (some path) now r).expired ≡ not (is_live now r)
unfolding trace_rule is_live
trace_rule-live path now r = ground arith

module _ (app_enabled : Bool) (rules : List Rule) (raw_uri : Text) (now : Instant) where
  -- The rule at a place of the list, with the row of the screen at the same place.
  abbrev pub Row : ℕ → Rule → RuleTrace → Type 0
  Row i r row =
      (get_elem? rules i ≡ some r)
      × (get_elem? (explain app_enabled rules raw_uri now).rules i ≡ some row)

  Row-of_rule :
      (path : Text) (i : ℕ) (r : Rule)
      → normalise raw_uri ≡ ok path
      → get_elem? rules i ≡ some r
      → Row i r (trace_rule (some path) now r)
  unfolding explain
  Row-of_rule path i r n h = (h, rw n (get_elem?-map (trace_rule (some path) now) rules i h))

  row-matched :
      (path : Text) (r : Rule)
      → matches r.path_pattern path ≡ true
      → (trace_rule (some path) now r).matched ≡ true
  unfolding trace_rule
  row-matched path r t = t

  row-seen :
      (path : Text) (r : Rule)
      → (trace_rule (some path) now r).matched ≡ true
      → matches r.path_pattern path ≡ true
  unfolding trace_rule
  row-seen path r t = t

  row-expired :
      (path : Text) (r : Rule)
      → is_live now r ≡ true
      → (trace_rule (some path) now r).expired ≡ false
  row-expired path r l = trace_rule-live path now r ∙ ap not l

  row-live :
      (path : Text) (r : Rule)
      → (trace_rule (some path) now r).expired ≡ false
      → is_live now r ≡ true
  row-live path r e = ground (arith, trace_rule-live path now r)

  Row-is :
      (path : Text) (i : ℕ) (r : Rule) (row : RuleTrace)
      → normalise raw_uri ≡ ok path
      → Row i r row
      → row ≡ trace_rule (some path) now r
  Row-is path i r row n (at, at') = cc (at', (Row-of_rule path i r n at).1)

  -- Where the screen says allowed, it shows a row with an allow rule that matched and has not
  -- expired, and every row with a deny rule that matched has expired.
  pub explain-allow :
      (explain app_enabled rules raw_uri now).decision ≡ Decision.allow
      → ((i : ℕ) × (r : Rule) × (row : RuleTrace) × Row i r row
          × (r.effect ≡ Effect.allow)
          × (row.matched ≡ true)
          × (row.expired ≡ false))
        × ((i : ℕ) (r : Rule) (row : RuleTrace)
            → Row i r row
            → r.effect ≡ Effect.deny
            → row.matched ≡ true
            → row.expired ≡ true)
  unfolding explain
  explain-allow h =
      let (on, paths, r-paths, g) = (decide-allow_iff app_enabled rules raw_uri now).0 h in
      let (path, n, m) = readings-normalise raw_uri r-paths in
      let (hit, no_deny) = All-In _ path paths g m in
      let (r, k, l, e, t) = hit in
      let (i, at) = In-position r rules k in
      (
        (
          i,
          r,
          trace_rule (some path) now r,
          Row-of_rule path i r n at,
          e,
          row-matched path r t,
          row-expired path r l,
        ),
        λ j s row rows denied seen.
            let same : row ≡ trace_rule (some path) now s = Row-is path j s row n rows in
            elim (Bool-cases row.expired) [
              | inl out ↦ out
              | inr live ↦ absurd (
                  no_deny (
                    s,
                    In-of_position s rules j rows.0,
                    row-live path s (rw (← same) live),
                    denied,
                    row-seen path s (rw (← same) seen),
                  ))
            ],
      )
