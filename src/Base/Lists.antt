-- ===== src/Base/Lists.antt =====
-- Lists measured by native numbers and searched by Boolean tests, under the library's names.
use Prim.Native.Nat.{ℕ, zero, suc}
use mathlib.Core.Path.{ap, subst, ◌≡◌, refl}
use mathlib.Core.Logic.{◌⊎◌, inl, inr}
use mathlib.Core.Bool.{Bool, true, false, ◌&&◌, ◌||◌}
use mathlib.Core.List.{map, List, [], ◌∷◌, ◌++◌}
use mathlib.Core.Option.{Option, none, some}
use native.Mathlib.Omega.{arith}
use open_berat.Base.Logic.{Bool-cases, if◌then◌else◌}

-- The empty type at every level.
pub data Nowhere {ℓ} : Type ℓ where

module _ {ℓ} {A : Type ℓ} where
  abbrev pub length : List A → ℕ
  length [] = 0
  length (x ∷ xs) = suc (length xs)

  abbrev pub take : ℕ → List A → List A
  take zero xs = []
  take (suc n) [] = []
  take (suc n) (x ∷ xs) = x ∷ take n xs

  abbrev pub get_elem? : List A → ℕ → Option A
  get_elem? [] i = none
  get_elem? (x ∷ xs) zero = some x
  get_elem? (x ∷ xs) (suc i) = get_elem? xs i

  abbrev pub head_or : A → List A → A
  head_or d [] = d
  head_or d (x ∷ xs) = x

  -- Rust's `iter().any(p)`, `all(p)`, `find(p)` and `filter(p)`.
  abbrev pub any : (A → Bool) → List A → Bool
  any p [] = false
  any p (x ∷ xs) = p x || any p xs

  abbrev pub all : (A → Bool) → List A → Bool
  all p [] = true
  all p (x ∷ xs) = p x && all p xs

  abbrev pub find : (A → Bool) → List A → Option A
  find p [] = none
  find p (x ∷ xs) = if p x then some x else find p xs

  abbrev pub filter : (A → Bool) → List A → List A
  filter p [] = []
  filter p (x ∷ xs) = let rest = filter p xs in if p x then x ∷ rest else rest

  pub any-append : (p : A → Bool) (xs ys : List A) → any p (xs ++ ys) ≡ (any p xs || any p ys)
  any-append p [] ys = refl
  any-append p (x ∷ xs) ys = ground (arith, any-append p xs ys)

  pub all-append : (p : A → Bool) (xs ys : List A) → all p (xs ++ ys) ≡ (all p xs && all p ys)
  all-append p [] ys = refl
  all-append p (x ∷ xs) ys = ground (arith, all-append p xs ys)

  -- Membership with the position kept.
  abbrev pub In : A → List A → Type ℓ
  In a [] = Nowhere {ℓ}
  In a (x ∷ xs) = (x ≡ a) ⊎ In a xs

  pub any_intro : (p : A → Bool) (a : A) (xs : List A) → In a xs → p a ≡ true → any p xs ≡ true
  any_intro p a [] m h = elim m [ ]
  any_intro p a (x ∷ xs) (inl e) h = rw (e, h)
  any_intro p a (x ∷ xs) (inr m) h = ground (arith, any_intro p a xs m h)

  pub any_elim : (p : A → Bool) (xs : List A) → any p xs ≡ true → (a : A) × In a xs × (p a ≡ true)
  any_elim p [] h = absurd (ground arith)
  any_elim p (x ∷ xs) h = elim (Bool-cases (p x)) [
    | inl e ↦ (x, inl refl, e)
    | inr e ↦ let (a, m, q) = any_elim p xs (ground arith) in (a, inr m, q)
  ]

  pub any-eq-false : (p : A → Bool) (a : A) (xs : List A) → any p xs ≡ false → In a xs → p a ≡ false
  any-eq-false p a [] h m = elim m [ ]
  any-eq-false p a (x ∷ xs) h (inl e) = ground arith
  any-eq-false p a (x ∷ xs) h (inr m) = any-eq-false p a xs (ground arith) m

  pub any_mono :
      (p : A → Bool) (xs ys : List A)
      → ((a : A) → In a xs → In a ys)
      → any p xs ≡ true
      → any p ys ≡ true
  any_mono p xs ys sub h = let (a, m, q) = any_elim p xs h in any_intro p a ys (sub a m) q

  pub find-eq-some :
      (p : A → Bool) (xs : List A) {a : A} → find p xs ≡ some a → In a xs × (p a ≡ true)
  find-eq-some p [] h = absurd (ground arith)
  find-eq-some p (x ∷ xs) {a} h = elim (Bool-cases (p x)) [
    | inl e ↦ let same : x ≡ a = ground arith in (inl same, rw (← same) e)
    | inr e ↦ let (m, q) = find-eq-some p xs (ground arith) in (inr m, q)
  ]

  pub find-eq-none : (p : A → Bool) (a : A) (xs : List A) → find p xs ≡ none → In a xs → p a ≡ false
  find-eq-none p a [] h m = elim m [ ]
  find-eq-none p a (x ∷ xs) h (inl e) = ground arith
  find-eq-none p a (x ∷ xs) h (inr m) = find-eq-none p a xs (ground arith) m

  pub In-append_inv : (a : A) (xs ys : List A) → In a (xs ++ ys) → In a xs ⊎ In a ys
  In-append_inv a [] ys m = inr m
  In-append_inv a (x ∷ xs) ys (inl e) = inl (inl e)
  In-append_inv a (x ∷ xs) ys (inr m) = elim (In-append_inv a xs ys m) [
    | inl k ↦ inl (inr k)
    | inr k ↦ inr k
  ]

  pub In-filter : (p : A → Bool) (a : A) (xs : List A) → In a xs → p a ≡ true → In a (filter p xs)
  In-filter p a [] m h = elim m [ ]
  In-filter p a (x ∷ xs) (inl e) h = rw (e, h) (inl refl)
  In-filter p a (x ∷ xs) (inr m) h = elim (Bool-cases (p x)) [
    | inl e ↦ rw e (inr (In-filter p a xs m h))
    | inr e ↦ rw e (In-filter p a xs m h)
  ]

  pub In-filter_inv :
      (p : A → Bool) (a : A) (xs : List A) → In a (filter p xs) → In a xs × (p a ≡ true)
  In-filter_inv p a [] m = elim m [ ]
  In-filter_inv p a (x ∷ xs) m = elim (Bool-cases (p x)) [
    | inl e ↦
        let m' : In a (x ∷ filter p xs) = rw e at m in
        elim m' [
          | inl same ↦ (inl same, rw (← same) e)
          | inr k ↦ let (n, q) = In-filter_inv p a xs k in (inr n, q)
        ]
    | inr e ↦
        let m' : In a (filter p xs) = rw e at m in
        let (n, q) = In-filter_inv p a xs m' in (inr n, q)
  ]

-- A predicate on every element.
module _ {ℓ κ} {A : Type ℓ} (P : A → Type κ) where
  abbrev pub All : List A → Type κ
  All [] = Unit
  All (x ∷ xs) = P x × All xs

  pub All-append : (xs ys : List A) → All xs → All ys → All (xs ++ ys)
  All-append [] ys _ k = k
  All-append (x ∷ xs) ys (p, h) k = (p, All-append xs ys h k)

  pub All-In : (a : A) (xs : List A) → All xs → In a xs → P a
  All-In a [] h m = elim m [ ]
  All-In a (x ∷ xs) (p, h) (inl e) = subst P e p
  All-In a (x ∷ xs) (p, h) (inr m) = All-In a xs h m

  pub All-filter : (p : A → Bool) (xs : List A) → All xs → All (filter p xs)
  All-filter p [] h = tt
  All-filter p (x ∷ xs) (q, h) = elim (Bool-cases (p x)) [
    | inl e ↦ rw e (q, All-filter p xs h)
    | inr e ↦ rw e (All-filter p xs h)
  ]

  pub All-intro : (xs : List A) → ((a : A) → In a xs → P a) → All xs
  All-intro [] f = tt
  All-intro (x ∷ xs) f = (f x (inl refl), All-intro xs (λ a m. f a (inr m)))

module _ {ℓ κ} {A : Type ℓ} {B : Type κ} (f : A → B) where
  pub In-map : (a : A) (xs : List A) → In a xs → In (f a) (map f xs)
  In-map a [] m = elim m [ ]
  In-map a (x ∷ xs) (inl e) = inl (ap f e)
  In-map a (x ∷ xs) (inr m) = inr (In-map a xs m)

  pub In-map_inv : (b : B) (xs : List A) → In b (map f xs) → (a : A) × In a xs × (f a ≡ b)
  In-map_inv b [] m = elim m [ ]
  In-map_inv b (x ∷ xs) (inl e) = (x, inl refl, e)
  In-map_inv b (x ∷ xs) (inr m) = let (a, k, e) = In-map_inv b xs m in (a, inr k, e)

module _ {ℓ} {A : Type ℓ} where
  pub In-position : (a : A) (xs : List A) → In a xs → (i : ℕ) × (get_elem? xs i ≡ some a)
  In-position a [] m = elim m [ ]
  In-position a (x ∷ xs) (inl e) = (0, ap some e)
  In-position a (x ∷ xs) (inr m) = let (i, e) = In-position a xs m in (suc i, e)

  pub In-of_position : (a : A) (xs : List A) (i : ℕ) → get_elem? xs i ≡ some a → In a xs
  In-of_position a [] i h = absurd (ground arith)
  In-of_position a (x ∷ xs) zero h = inl (ground arith)
  In-of_position a (x ∷ xs) (suc i) h = inr (In-of_position a xs i h)

  pub get_elem?-map {κ} :
      {B : Type κ} (f : A → B) (xs : List A) (i : ℕ) {a : A}
      → get_elem? xs i ≡ some a
      → get_elem? (map f xs) i ≡ some (f a)
  get_elem?-map f [] i h = absurd (ground arith)
  get_elem?-map f (x ∷ xs) zero h = ground arith
  get_elem?-map f (x ∷ xs) (suc i) h = get_elem?-map f xs i h
