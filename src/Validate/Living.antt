-- ===== src/Validate/Living.antt =====
-- backend/src/validate.rs and backend/src/policy.rs: a stored path pattern is one that a request can meet.
use mathlib.Core.List.{append_assoc}
use open_berat.Base.{
  ℕ, true, false, ◌&&◌, List, [], ◌∷◌, map, All, before, split_on, join, ◌++◌, ◌==◌, none, subst,
  ok, Text, codes, is_empty, text_eq, text_eq_sound, contains, ends_with, starts_with, trim_end,
  ◌≡◌, ◌⊎◌, inl, inr, refl, sym, ap, ◌∙◌, arith, Bool-cases,
}
use open_berat.Base.Splitting.{strip_prefix-append, join-split}
use open_berat.Base.Utf8.{IsText, encode, from_utf8-encode}
use open_berat.Policy.Uri.{decode, normalise, unparametered, decode_resolved, readings}
use open_berat.Policy.Normal.{split-chars}
use open_berat.Policy.Types.{Effect, Instant, Rule, Decision}
use open_berat.Policy.Rules.{
  base, under, matches, denies, allows, is_live, decide_path, combine, decide,
}
use open_berat.Policy.Resolve.{IsResolved-resolve}
use open_berat.Policy.Canonical.{
  normalise-IsNormal, before-absent, decode_bytes-plain, encode-plain, plain-contains,
  contains-append,
}
use open_berat.Validate.Pattern.{without_star, validate_path_pattern, validate_path_pattern-ok}

abbrev IsOrdinary : ℕ → Type 0
IsOrdinary c = (c == b';') ≡ false

ends_with-append : (u s : Text) → ends_with u s ≡ true → (a : Text) × (s ≡ a ++ u)
unfolding ends_with
ends_with-append [] [] h = ([], refl)
ends_with-append (d ∷ u) [] h = absurd (ground arith)
ends_with-append u (c ∷ s) h = elim (Bool-cases (text_eq u (c ∷ s))) [
  | inl e ↦ ([], sym (text_eq_sound u (c ∷ s) e))
  | inr e ↦ let (a, f) = ends_with-append u s (ground arith) in (c ∷ a, ap (λ t. c ∷ t) f)
]

without_star-append : (a : Text) → without_star (a ++ codes "/*") ≡ a ++ codes "/"
unfolding without_star
without_star-append [] = refl
without_star-append (c ∷ []) = refl
without_star-append (c ∷ d ∷ a) = ground (arith, without_star-append (d ∷ a))

-- One star at the end, and none before it.
trim_star : (q : Text) → contains b'*' q ≡ false → trim_end (λ c. c == b'*') (q ++ codes "*") ≡ q
unfolding trim_end
trim_star [] h = refl
trim_star (c ∷ q) h = ground (arith, trim_star q)

trim_slash : (a : Text) → trim_end (λ c. c == b'/') (a ++ codes "/") ≡ trim_end (λ c. c == b'/') a
unfolding trim_end
trim_slash [] = refl
trim_slash (c ∷ a) = ground (arith, trim_slash a)

-- What `trim_end` takes away are slashes.
trimmed :
    (a : Text)
    → (t : Text) × (a ≡ trim_end (λ c. c == b'/') a ++ t)
      × (starts_with (b'/' ∷ []) (t ++ codes "/") ≡ true)
unfolding trim_end starts_with
trimmed [] = ([], refl, refl)
trimmed (c ∷ a) =
    let (t, e, f) = trimmed a in
    elim (Bool-cases ((c == b'/') && is_empty (trim_end (λ d. d == b'/') a))) [
      | inl g ↦ (c ∷ a, rw g refl, ground arith)
      | inr g ↦ (t, rw g (ap (λ s. c ∷ s) e), f)
    ]

under-append : (b t : Text) → starts_with (b'/' ∷ []) t ≡ true → under b (b ++ t) ≡ true
unfolding under
under-append b t h = ground (arith, strip_prefix-append b t)

-- A pattern that passes and is not empty is a path followed by the one `*`; the path normalises to itself,
-- and the pattern matches it. The base of the pattern is the path without its trailing slashes.
pub validate_path_pattern-matches :
    (raw : Text)
    → validate_path_pattern raw ≡ ok tt
    → (raw ≡ [])
      ⊎ ((path : Text) × (raw ≡ path ++ codes "*")
          × (normalise path ≡ ok path)
          × (base raw ≡ trim_end (λ c. c == b'/') path)
          × (matches raw path ≡ true))
unfolding base matches
validate_path_pattern-matches raw h = elim (validate_path_pattern-ok raw h) [
  | inl e ↦ inl e
  | inr (ends, one, same) ↦
      let (a, e) = ends_with-append (codes "/*") raw ends in
      let path = a ++ codes "/" in
      let star : without_star raw ≡ path = ap without_star e ∙ without_star-append a in
      let whole : raw ≡ path ++ codes "*" = e ∙ sym (append_assoc a (codes "/") (codes "*")) in
      let normal : normalise path ≡ ok path = rw star at same in
      let no_star : contains b'*' path ≡ false = rw star at one in
      let n = normalise-IsNormal path path normal in
      let trimmed_base : base raw ≡ trim_end (λ c. c == b'/') path =
        rw (whole, base)
          (rw (trim_star path no_star, IsResolved-resolve path n.resolved, n.lowered) refl) in
      let (t, f, g) = trimmed a in
      let split : path ≡ trim_end (λ c. c == b'/') path ++ (t ++ codes "/") =
        ap (λ s. s ++ codes "/") f
        ∙ append_assoc (trim_end (λ c. c == b'/') a) t (codes "/")
        ∙ ap (λ s. s ++ (t ++ codes "/")) (sym (trim_slash a)) in
      let below : under (base raw) path ≡ true =
        ap (λ b. under b path) trimmed_base
        ∙ ap (under (trim_end (λ c. c == b'/') path)) split
        ∙ under-append (trim_end (λ c. c == b'/') path) (t ++ codes "/") g in
      inr (path, whole, normal, trimmed_base, below)
]

without_parameters : (s : Text) → contains b';' s ≡ false → All IsOrdinary s
without_parameters [] h = tt
without_parameters (c ∷ s) h = (ground arith, without_parameters s (ground arith))

ordinary-contains : (s : Text) → All IsOrdinary s → contains b';' s ≡ false
ordinary-contains [] h = refl
ordinary-contains (c ∷ s) (k, h) = ground (arith, ordinary-contains s h)

before-segments : (ps : List Text) → All (All IsOrdinary) ps → map (before b';') ps ≡ ps
before-segments [] h = refl
before-segments (p ∷ ps) (k, h) =
    rw (before-absent b';' p (ordinary-contains p k), before-segments ps h) refl

unparametered-plain : (path : Text) → contains b';' path ≡ false → unparametered path ≡ path
unfolding unparametered
unparametered-plain path h =
    ap (join b'/') (
      before-segments (split_on b'/' path)
        (split-chars IsOrdinary path (without_parameters path h)))
    ∙ join-split b'/' path

-- A path of characters that normalises to itself, without `?` and `;`, has itself for all its readings.
readings-normal :
    (path : Text)
    → IsText path
    → contains b'?' path ≡ false
    → contains b';' path ≡ false
    → normalise path ≡ ok path
    → readings path ≡ ok (path ∷ path ∷ path ∷ [])
unfolding readings decode_resolved decode
readings-normal path v q s h =
    let n = normalise-IsNormal path path h in
    rw
      (
        h,
        before-absent b'?' path q,
        unparametered-plain path s,
        IsResolved-resolve path n.resolved,
        decode_bytes-plain (encode path) (encode-plain path (plain-contains path n.plain)),
        from_utf8-encode path v,
        n.lowered,
      )
      refl

IsText-prefix : (s t : Text) → IsText (s ++ t) → IsText s
IsText-prefix [] t v = tt
IsText-prefix (c ∷ s) t (k, v) = (k, IsText-prefix s t v)

contains-prefix : (c : ℕ) (s t : Text) → contains c (s ++ t) ≡ false → contains c s ≡ false
contains-prefix c s t h = ground (arith, contains-append c s t)

-- The one rule that the pattern is granted by.
abbrev pub granted : Text → Rule
granted raw = record { effect = Effect.allow; path_pattern = raw; expires_at = none }

decide-granted :
    (raw path : Text) (now : Instant)
    → readings path ≡ ok (path ∷ path ∷ path ∷ [])
    → matches raw path ≡ true
    → decide true (granted raw ∷ []) path now ≡ Decision.allow
unfolding decide decide_path denies allows is_live combine
decide-granted raw path now r m = rw (r, decide, m) refl

-- A pattern of characters, without `;` and `?`, that passes and is not empty can be granted: it is a path
-- followed by the one `*`, a request for that path reads as just this path in all three readings, and with
-- an allow rule of the pattern alone an enabled application is open to it. The base of the pattern is the
-- path without its trailing slashes.
pub validate_path_pattern-granted :
    (raw : Text) (now : Instant)
    → IsText raw
    → contains b'?' raw ≡ false
    → contains b';' raw ≡ false
    → validate_path_pattern raw ≡ ok tt
    → (raw ≡ [])
      ⊎ ((path : Text) × (raw ≡ path ++ codes "*")
          × (readings path ≡ ok (path ∷ path ∷ path ∷ []))
          × (base raw ≡ trim_end (λ c. c == b'/') path)
          × (decide true (granted raw ∷ []) path now ≡ Decision.allow))
validate_path_pattern-granted raw now v q s h = elim (validate_path_pattern-matches raw h) [
  | inl e ↦ inl e
  | inr (path, whole, normal, trimmed_base, meets) ↦
      let star = codes "*" in
      let reads =
        readings-normal path (IsText-prefix path star (subst IsText whole v))
          (contains-prefix b'?' path star (ap (contains b'?') (sym whole) ∙ q))
          (contains-prefix b';' path star (ap (contains b';') (sym whole) ∙ s)) normal in
      inr (path, whole, reads, trimmed_base, decide-granted raw path now reads meets)
]
