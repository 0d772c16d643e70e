-- ===== src/Validate/Pattern.antt =====
-- backend/src/validate.rs: a path pattern is stored only in the spelling that it is matched in.
use open_berat.Base.{
  true, false, not, [], ◌∷◌, ◌++◌, if◌then◌else◌, ◌==◌, ◌&&◌, ◌||◌, Result, ok, err, Text, codes,
  is_empty, text_eq, text_eq_sound, contains, ends_with, trim_end, ◌≡◌, ◌⊎◌, inl, inr, refl, ap,
  ◌∙◌, arith, Bool-cases, Result-cases,
}
use open_berat.Policy.Uri.{normalise}

-- `raw.strip_suffix('*').unwrap_or(raw)`
unfoldable pub without_star : Text → Text
without_star [] = []
without_star (c ∷ s) = let rest = without_star s in if is_empty s && c == b'*' then [] else c ∷ rest

unfoldable pub validate_path_pattern : Text → Result Text (Unit {0})
validate_path_pattern raw =
    let shown = trim_end (λ c. c == b'*' || c == b'/') raw in
    let probe = without_star raw in
    if is_empty raw
    then ok tt
    else if not (ends_with (codes "/*") raw)
    then err (
        if is_empty shown
        then codes "path_pattern for the whole application is empty, or /*"
        else codes "path_pattern is a subtree and has no exact-path form: write "
          ++ shown
          ++ codes "/*, which matches "
          ++ shown
          ++ codes " and everything below it")
    else if contains b'*' probe
    then err (codes "path_pattern may only use * as its last character")
    else elim (normalise probe) [
      | ok seen ↦
          if text_eq seen probe
          then ok tt
          else err (codes "path_pattern must be written the way it is matched: " ++ seen)
      | err e ↦ err (codes "path_pattern must be empty or start with /")
    ]

-- A pattern that passes is empty, or it ends in `/*`, holds no other star, and without its star
-- normalises to itself.
pub validate_path_pattern-ok :
    (raw : Text)
    → validate_path_pattern raw ≡ ok tt
    → (raw ≡ [])
      ⊎ ((ends_with (codes "/*") raw ≡ true)
          × (contains b'*' (without_star raw) ≡ false)
          × (normalise (without_star raw) ≡ ok (without_star raw)))
unfolding validate_path_pattern
validate_path_pattern-ok [] h = inl refl
validate_path_pattern-ok (c ∷ s) h =
    let raw = c ∷ s in
    let probe = without_star raw in
    elim (Bool-cases (ends_with (codes "/*") raw)) [
      | inr e ↦ absurd (ground arith)
      | inl e ↦ elim (Bool-cases (contains b'*' probe)) [
        | inl f ↦ absurd (ground arith)
        | inr f ↦ elim (Result-cases (normalise probe)) [
          | inr (reason, g) ↦ absurd (ground arith)
          | inl (seen, g) ↦ elim (Bool-cases (text_eq seen probe)) [
            | inr i ↦ absurd (ground arith)
            | inl i ↦ inr (e, f, g ∙ ap ok (text_eq_sound seen probe i))
          ]
        ]
      ]
    ]
