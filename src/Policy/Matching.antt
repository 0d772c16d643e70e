-- ===== src/Policy/Matching.antt =====
-- backend/src/policy.rs: `matches` compares whole segments.
use mathlib.Core.List.{append-nil}
use open_berat.Base.{
  ℕ, true, List, [], ◌∷◌, ◌++◌, ◌≡◌, ◌↔◌, ◌⊎◌, inl, inr, refl, sym, ap, ◌∙◌, arith, Bool-cases,
  Option-cases, Text, text_eq, text_eq_sound, text_eq_refl, strip_prefix, starts_with, split_on,
  join,
}
use open_berat.Base.Splitting.{
  join-split, split-append, join-append, split-IsCons, strip_prefix-eq_some, strip_prefix-append,
}
use open_berat.Policy.Rules.{base, under, matches}

-- The segments of a path, the empty one before its leading slash included.
abbrev pub segments : Text → List Text
segments = split_on b'/'

-- `path` is `prefix`, or it goes on below it.
abbrev pub Below : (prefix path : Text) → Type 0
Below prefix path = (below : List Text) × (segments path ≡ segments prefix ++ below)

starts-slash : (s : Text) → starts_with (b'/' ∷ []) s ≡ true → (t : Text) × (s ≡ b'/' ∷ t)
unfolding starts_with
starts-slash [] h = absurd (ground arith)
starts-slash (c ∷ s) h = (s, ground arith)

-- What the test of `matches` finds below a base that is not empty.
under-cases :
    (c : ℕ) (p path : Text)
    → under (c ∷ p) path ≡ true
    → (path ≡ c ∷ p) ⊎ ((t : Text) × (path ≡ (c ∷ p) ++ b'/' ∷ t))
unfolding under
under-cases c p path h = elim (Bool-cases (text_eq path (c ∷ p))) [
  | inl e ↦ inl (text_eq_sound path (c ∷ p) e)
  | inr n ↦ elim (Option-cases (strip_prefix (c ∷ p) path)) [
    | inl none_left ↦ absurd (ground arith)
    | inr (rest, e) ↦
        let (t, s) = starts-slash rest (ground arith) in
        inr (t, strip_prefix-eq_some (c ∷ p) path rest e ∙ ap (λ r. (c ∷ p) ++ r) s)
  ]
]

under-Below :
    (prefix path : Text)
    → starts_with (b'/' ∷ []) path ≡ true
    → under prefix path ≡ true
    → Below prefix path
under-Below [] path root h =
    let (t, e) = starts-slash path root in (segments t, ap segments e ∙ split-append b'/' [] t)
under-Below (c ∷ p) path root h = elim (under-cases c p path h) [
  | inl e ↦ ([], ap segments e ∙ sym (append-nil _))
  | inr (t, e) ↦ (segments t, ap segments e ∙ split-append b'/' (c ∷ p) t)
]

under_of_below : (c : ℕ) (p t : Text) → under (c ∷ p) ((c ∷ p) ++ b'/' ∷ t) ≡ true
unfolding under starts_with
under_of_below c p t = ground (arith, strip_prefix-append (c ∷ p) (b'/' ∷ t))

under_self : (c : ℕ) (p : Text) → under (c ∷ p) (c ∷ p) ≡ true
unfolding under
under_self c p = ground (arith, text_eq_refl (c ∷ p))

Below-under : (prefix path : Text) → Below prefix path → under prefix path ≡ true
Below-under [] path b = unfold under in refl
Below-under (c ∷ p) path ([], e) =
    let same : path ≡ c ∷ p =
      sym (join-split b'/' path) ∙ ap (join b'/') (e ∙ append-nil _) ∙ join-split b'/' (c ∷ p) in
    rw same (under_self c p)
Below-under (c ∷ p) path (q ∷ qs, e) =
    let longer : path ≡ (c ∷ p) ++ b'/' ∷ join b'/' (q ∷ qs) =
      sym (join-split b'/' path)
      ∙ ap (join b'/') e
      ∙ join-append b'/' (segments (c ∷ p)) (q ∷ qs) (split-IsCons _ (c ∷ p)) tt
      ∙ ap (λ s. s ++ b'/' ∷ join b'/' (q ∷ qs)) (join-split b'/' (c ∷ p)) in
    rw longer (under_of_below c p (join b'/' (q ∷ qs)))

-- For a path that starts with a slash: a pattern matches it exactly when the segments of the
-- pattern's base are the first segments of the path, so the boundary is a segment, never a
-- character.
pub matches-Below_iff :
    (pattern path : Text)
    → starts_with (b'/' ∷ []) path ≡ true
    → (matches pattern path ≡ true) ↔ Below (base pattern) path
unfolding matches
matches-Below_iff pattern path root =
    (under-Below (base pattern) path root, Below-under (base pattern) path)
