-- ===== src/Validate/Shape.antt =====
-- backend/src/validate.rs: `labelled` accepts exactly the language of the schema's constraint
-- `^[a-z0-9]+(S[a-z0-9]+)*$` (backend/migrations/0001_init.sql), here as the automaton of it.
use open_berat.Base.{
  ℕ, Bool, true, false, ◌&&◌, not, List, [], ◌∷◌, Option, some, if◌then◌else◌, ok, Text, ◌≡◌, refl,
  sym, ap, ◌∙◌, arith, inl, inr, Bool-cases, all, All, split, push_front, to_lower, to_lower_idem,
  ◌⊎◌, text_eq, codes, before, any, ◌≢◌, ◌↔◌, text_eq_refl, In, any-eq-false,
}
use open_berat.Base.Splitting.{split-IsCons, IsCons}
use open_berat.Validate.Fields.{
  Url, is_alphanumeric, is_label, separates, labelled, validate_slug, check_hostname,
  validate_hostname, portal_host, is_some_and, reserved_names,
}

-- The automaton: at the start of a label, or behind a character of it.
abbrev pub accepts : List ℕ → (at_start : Bool) → Text → Bool
accepts separators at_start [] = not at_start
accepts separators at_start (c ∷ s) =
    if separates separators c
    then not at_start && accepts separators true s
    else is_alphanumeric c && accepts separators false s

module _ (separators : List ℕ) where
  -- The first label may be empty: some of it stands before.
  abbrev continues : List Text → Bool
  continues [] = false
  continues (label ∷ labels) = all is_alphanumeric label && all is_label labels

  continues-push_front :
      (c : ℕ) (labels : List Text)
      → IsCons labels
      → continues (push_front c labels) ≡ (is_alphanumeric c && continues labels)
  continues-push_front c [] h = absurd h
  continues-push_front c (label ∷ labels) h = ground arith

  all-push_front :
      (c : ℕ) (labels : List Text)
      → IsCons labels
      → all is_label (push_front c labels) ≡ (is_alphanumeric c && continues labels)
  all-push_front c [] h = absurd h
  all-push_front c (label ∷ labels) h = ground arith

  labels-accepts :
      (s : Text)
      → (all is_label (split (separates separators) s) ≡ accepts separators true s)
        × (continues (split (separates separators) s) ≡ accepts separators false s)
  unfolding split
  labels-accepts [] = (refl, refl)
  labels-accepts (c ∷ s) =
      let (at_start, within) = labels-accepts s in
      elim (Bool-cases (separates separators c)) [
        | inl e ↦ rw (e, at_start) (refl, refl)
        | inr e ↦
            let some_label = split-IsCons (separates separators) s in
            let p = all-push_front c (split (separates separators) s) some_label in
            let q = continues-push_front c (split (separates separators) s) some_label in
            rw (e, p, q, within) (refl, refl)
      ]

  -- The test by labels is the automaton of the schema's regular expression.
  pub labelled-accepts : (value : Text) → labelled value separators ≡ accepts separators true value
  unfolding labelled
  labelled-accepts [] = refl
  labelled-accepts (c ∷ s) = (labels-accepts (c ∷ s)).0

  -- Every character of an accepted value is a separator, a lower-case letter or a digit.
  abbrev pub IsPlain : ℕ → Type 0
  IsPlain c = (separates separators c ≡ true) ⊎ (is_alphanumeric c ≡ true)

  pub accepts-IsPlain :
      (at_start : Bool) (s : Text) → accepts separators at_start s ≡ true → All IsPlain s
  accepts-IsPlain at_start [] h = tt
  accepts-IsPlain at_start (c ∷ s) h = elim (Bool-cases (separates separators c)) [
    | inl e ↦ (inl e, accepts-IsPlain true s (ground arith))
    | inr e ↦ (inr (ground arith), accepts-IsPlain false s (ground arith))
  ]

  pub labelled-IsPlain : (value : Text) → labelled value separators ≡ true → All IsPlain value
  labelled-IsPlain value h = accepts-IsPlain true value (sym (labelled-accepts value) ∙ h)

-- A slug passes exactly if the automaton of `^[a-z0-9]+(-[a-z0-9]+)*$` accepts it.
pub validate_slug-accepts_iff :
    (slug : Text) → (validate_slug slug ≡ ok tt) ↔ (accepts (b'-' ∷ []) true slug ≡ true)
unfolding validate_slug
validate_slug-accepts_iff slug = ground (arith, labelled-accepts (b'-' ∷ []) slug)

pub any-missing :
    (names : List Text) (t : Text)
    → any (λ n. text_eq n t) names ≡ false
    → (n : Text) → In n names
    → t ≢ n
any-missing names t f n m e =
    let differ : text_eq n t ≡ false = any-eq-false (λ n. text_eq n t) n names f m in
    absurd (ground (arith, text_eq_refl n))

portal-absurd :
    (name : Text) (host : Option Text)
    → host ≡ some name
    → is_some_and (λ p. text_eq p name) host ≡ false
    → ⊥
portal-absurd name host e f =
    let g : is_some_and (λ p. text_eq p name) (some name) ≡ false = rw e at f in
    ground (arith, text_eq_refl name)

-- A hostname that passes is answered in lower case; it is one of the schema's
-- `^[a-z0-9]+([.-][a-z0-9]+)*$`, its first label is not reserved, and it is not the portal's own.
pub validate_hostname-ok :
    (parse : Text → Option Url) (hostname portal_origin stored : Text)
    → validate_hostname parse hostname portal_origin ≡ ok stored
    → (stored ≡ to_lower hostname)
      × (accepts (b'.' ∷ b'-' ∷ []) true stored ≡ true)
      × (before b'.' stored ≢ codes "portal")
      × (before b'.' stored ≢ codes "auth")
      × (portal_host parse portal_origin ≢ some stored)
unfolding validate_hostname check_hostname
validate_hostname-ok parse hostname portal_origin stored h =
    let name = to_lower hostname in
    let first = before b'.' name in
    let portal = is_some_and (λ p. text_eq p name) (portal_host parse portal_origin) in
    elim (Bool-cases (labelled name (b'.' ∷ b'-' ∷ []))) [
      | inr e ↦ absurd (ground arith)
      | inl e ↦ elim (Bool-cases (any (λ n. text_eq n first) reserved_names)) [
        | inl f ↦ absurd (ground arith)
        | inr f ↦ elim (Bool-cases portal) [
          | inl g ↦ absurd (ground arith)
          | inr g ↦
              let passed : stored ≡ name = ground arith in
              (
                passed,
                rw (passed, ← labelled-accepts (b'.' ∷ b'-' ∷ []) name) e,
                rw passed (any-missing reserved_names first f (codes "portal") (inl refl)),
                rw passed (any-missing reserved_names first f (codes "auth") (inr (inl refl))),
                λ k. portal-absurd name (portal_host parse portal_origin) (k ∙ ap some passed) g,
              )
        ]
      ]
    ]

-- A hostname that was accepted and stored passes the check again unchanged, against the same
-- portal.
pub validate_hostname_idem :
    (parse : Text → Option Url) (hostname portal_origin stored : Text)
    → validate_hostname parse hostname portal_origin ≡ ok stored
    → validate_hostname parse stored portal_origin ≡ ok stored
unfolding validate_hostname
validate_hostname_idem parse hostname portal_origin stored h =
    let lower = (validate_hostname-ok parse hostname portal_origin stored h).0 in
    rw (lower, to_lower_idem hostname) (rw lower at h)
