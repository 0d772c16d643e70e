-- ===== src/Base/Assoc.antt =====
-- Rust's `HashMap` and `HashSet` as lists over keys with a Boolean equality. The order of the list
-- stands for the order of iteration, which Rust leaves open.
use mathlib.Core.Path.{◌≡◌, refl}
use mathlib.Core.Logic.{◌↔◌, inl, inr}
use mathlib.Core.Bool.{Bool, true, false, not, ◌&&◌, ◌||◌}
use mathlib.Core.List.{List, [], ◌∷◌, map}
use mathlib.Core.Option.{Option, none, some}
use native.Mathlib.Omega.{arith}
use open_berat.Base.Logic.{if◌then◌else◌, Bool-cases}
use Prim.Native.Nat.{◌≤◌, ◌<◌}
use open_berat.Base.Lists.{length}
use open_berat.Base.Strings.{Text, text_eq, text_eq_iff}

pub record Eq {ℓ} (K : Type ℓ) : Type ℓ where
  pub beq : K → K → Bool
  pub beq_iff : (j k : K) → (beq j k ≡ true) ↔ (j ≡ k)

instance abbrev pub text_Eq : Eq Text
text_Eq = record { beq = text_eq; beq_iff = text_eq_iff }

module _ {ℓ} {K : Type ℓ} ⦃e : Eq K⦄ where
  pub beq_refl : (k : K) → e.beq k k ≡ true
  beq_refl k = (e.beq_iff k k).1 refl

  pub beq_comm : (j k : K) → e.beq j k ≡ e.beq k j
  beq_comm j k = ground (arith, e.beq_iff j k, e.beq_iff k j)

  -- `set.contains(&k)`, `set.insert(k)`, `set.remove(&k)`
  unfoldable pub member : K → List K → Bool
  member k [] = false
  member k (j ∷ js) = e.beq j k || member k js

  unfoldable pub add : K → List K → List K
  add k js = if member k js then js else k ∷ js

  unfoldable pub discard : K → List K → List K
  discard k [] = []
  discard k (j ∷ js) = let rest = discard k js in if e.beq j k then rest else j ∷ rest

  pub member_here : (k : K) (js : List K) → member k (k ∷ js) ≡ true
  unfolding member
  member_here k js = ground (arith, beq_refl k)

  pub member_later : (k j : K) (js : List K) → member k js ≡ true → member k (j ∷ js) ≡ true
  unfolding member
  member_later k j js h = ground arith

  pub member-add : (k j : K) (js : List K) → member j (add k js) ≡ (e.beq k j || member j js)
  unfolding add member
  member-add k j js = elim (Bool-cases (member k js)) [
    | inr no_key ↦ rw no_key
    | inl old ↦ elim (Bool-cases (e.beq k j)) [
      | inr other ↦ rw (old, other)
      | inl same ↦ ground (arith, (e.beq_iff k j).0 same)
    ]
  ]

  pub member-discard :
      (k j : K) (js : List K) → member j (discard k js) ≡ (member j js && not (e.beq k j))
  unfolding discard member
  member-discard k j [] = refl
  member-discard k j (i ∷ js) =
      ground (arith, member-discard k j js, e.beq_iff i k, e.beq_iff i j, e.beq_iff k j)

module _ {ℓ κ} {K : Type ℓ} {V : Type κ} ⦃e : Eq K⦄ where
  -- `map.get(&k)`, `map.remove(&k)`, `map.insert(k, v)`
  unfoldable pub lookup : K → List (K × V) → Option V
  lookup k [] = none
  lookup k ((j, v) ∷ m) = if e.beq j k then some v else lookup k m

  unfoldable pub remove : K → List (K × V) → List (K × V)
  remove k [] = []
  remove k ((j, v) ∷ m) = let rest = remove k m in if e.beq j k then rest else (j, v) ∷ rest

  unfoldable pub insert : K → V → List (K × V) → List (K × V)
  insert k v m = (k, v) ∷ remove k m

  -- `map.remove(&k)` leaves at most as many entries, and one less if the key was there once or more.
  pub length-remove-le : (k : K) (m : List (K × V)) → length (remove k m) ≤ length m
  unfolding remove
  length-remove-le k [] = omega arith
  length-remove-le k ((j, v) ∷ m) = ground (arith, length-remove-le k m)

  pub length-remove-lt :
      (k : K) (m : List (K × V)) (v : V) → lookup k m ≡ some v → length (remove k m) < length m
  unfolding lookup remove
  length-remove-lt k [] v h = absurd (ground arith)
  length-remove-lt k ((j, w) ∷ m) v h = ground (arith, length-remove-le k m, length-remove-lt k m v)

  pub lookup-remove :
      (k j : K) (m : List (K × V))
      → lookup j (remove k m) ≡ (if e.beq k j then none else lookup j m)
  unfolding lookup remove
  lookup-remove k j [] = ground arith
  lookup-remove k j ((i, v) ∷ m) =
      ground (arith, lookup-remove k j m, e.beq_iff i k, e.beq_iff i j, e.beq_iff k j)

  pub lookup-remove_self : (k : K) (m : List (K × V)) → lookup k (remove k m) ≡ none
  lookup-remove_self k m = ground (arith, lookup-remove k k m, beq_refl k)

  -- A map that has no key is empty.
  pub eq-nil_of_lookup : (m : List (K × V)) → ((k : K) → lookup k m ≡ none) → m ≡ []
  unfolding lookup
  eq-nil_of_lookup [] h = refl
  eq-nil_of_lookup ((k, v) ∷ m) h = absurd (ground (arith, h k, beq_refl k))

  pub lookup-keys :
      (k : K) (m : List (K × V)) → member k (map (λ p. p.0) m) ≡ false → lookup k m ≡ none
  unfolding lookup member
  lookup-keys k [] h = refl
  lookup-keys k ((j, v) ∷ m) h = ground (arith, lookup-keys k m)

  pub lookup_of_member :
      (k : K) (m : List (K × V))
      → member k (map (λ p. p.0) m) ≡ true
      → (v : V) × (lookup k m ≡ some v)
  unfolding lookup member
  lookup_of_member k [] h = absurd (ground arith)
  lookup_of_member k ((j, v) ∷ m) h = elim (Bool-cases (e.beq j k)) [
    | inl s ↦ (v, rw s)
    | inr s ↦ let (w, q) = lookup_of_member k m (ground arith) in (w, rw s q)
  ]

  pub lookup-insert :
      (k j : K) (v : V) (m : List (K × V))
      → lookup j (insert k v m) ≡ (if e.beq k j then some v else lookup j m)
  unfolding lookup insert
  lookup-insert k j v m = ground (arith, lookup-remove k j m)
