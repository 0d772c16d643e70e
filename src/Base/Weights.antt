-- ===== src/Base/Weights.antt =====
-- Association lists with one entry for a key: what they weigh in total, and how the updates change it.
use Prim.Native.Nat.{ℕ, ◌+◌, ◌≤◌}
use mathlib.Core.Path.{◌≡◌, refl, ap}
use mathlib.Core.Logic.{inl, inr}
use mathlib.Core.List.{List, [], ◌∷◌}
use mathlib.Core.Option.{none, some}
use native.Mathlib.Omega.{arith}
use open_berat.Base.Logic.{Bool-cases}
use open_berat.Base.Lists.{In}
use open_berat.Base.Assoc.{Eq, lookup, remove, insert, lookup-remove, lookup-remove_self}

module _ {ℓ κ} {K : Type ℓ} {V : Type κ} ⦃e : Eq K⦄ where
  -- No key stands twice.
  abbrev pub Distinct : List (K × V) → Type κ
  Distinct [] = Unit
  Distinct ((k, v) ∷ m) = (lookup k m ≡ none) × Distinct m

  pub remove_absent : (k : K) (m : List (K × V)) → lookup k m ≡ none → remove k m ≡ m
  unfolding lookup remove
  remove_absent k [] h = refl
  remove_absent k ((j, v) ∷ m) h = ground (arith, remove_absent k m)

  pub remove-Distinct : (k : K) (m : List (K × V)) → Distinct m → Distinct (remove k m)
  unfolding remove
  remove-Distinct k [] h = tt
  remove-Distinct k ((j, v) ∷ m) (n, h) = elim (Bool-cases (e.beq j k)) [
    | inl s ↦ rw s (remove-Distinct k m h)
    | inr s ↦ rw s (ground (arith, lookup-remove k j m), remove-Distinct k m h)
  ]

  pub insert-Distinct : (k : K) (v : V) (m : List (K × V)) → Distinct m → Distinct (insert k v m)
  unfolding insert
  insert-Distinct k v m h = (lookup-remove_self k m, remove-Distinct k m h)

  -- A predicate of every value.
  module _ {π} (Q : V → Type π) where
    abbrev pub AllValues : List (K × V) → Type π
    AllValues [] = Unit
    AllValues ((k, v) ∷ m) = Q v × AllValues m

    pub remove-AllValues : (k : K) (m : List (K × V)) → AllValues m → AllValues (remove k m)
    unfolding remove
    remove-AllValues k [] h = tt
    remove-AllValues k ((j, v) ∷ m) (q, h) = elim (Bool-cases (e.beq j k)) [
      | inl s ↦ rw s (remove-AllValues k m h)
      | inr s ↦ rw s (q, remove-AllValues k m h)
    ]

    pub lookup-AllValues :
        (k : K) (v : V) (m : List (K × V)) → AllValues m → lookup k m ≡ some v → Q v
    unfolding lookup
    lookup-AllValues k v [] h f = absurd (ground arith)
    lookup-AllValues k v ((j, w) ∷ m) (q, h) f = elim (Bool-cases (e.beq j k)) [
      | inl s ↦ let same : w ≡ v = ground arith in rw (← same) q
      | inr s ↦ lookup-AllValues k v m h (ground arith)
    ]

  module _ (weight : V → ℕ) where
    abbrev pub total : List (K × V) → ℕ
    total [] = 0
    total ((k, v) ∷ m) = weight v + total m

    pub total-remove :
        (k : K) (v : V) (m : List (K × V))
        → Distinct m
        → lookup k m ≡ some v
        → total (remove k m) + weight v ≡ total m
    unfolding lookup remove
    total-remove k v [] h f = absurd (ground arith)
    total-remove k v ((j, w) ∷ m) (n, h) f = elim (Bool-cases (e.beq j k)) [
      | inl s ↦
          let absent : lookup k m ≡ none = ground (arith, e.beq_iff j k) in
          ground (arith, remove_absent k m)
      | inr s ↦ ground (arith, total-remove k v m)
    ]

    pub total-insert :
        (k : K) (v : V) (m : List (K × V)) → total (insert k v m) ≡ weight v + total (remove k m)
    unfolding insert
    total-insert k v m = refl

    pub total-le : (k : K) (v : V) (m : List (K × V)) → lookup k m ≡ some v → weight v ≤ total m
    unfolding lookup
    total-le k v [] f = absurd (ground arith)
    total-le k v ((j, w) ∷ m) f = ground (arith, total-le k v m)

module _ {ℓ κ} {K : Type ℓ} {V : Type κ} ⦃e : Eq K⦄ where
  pub In-lookup : (k : K) (v : V) (m : List (K × V)) → lookup k m ≡ some v → In (k, v) m
  unfolding lookup
  In-lookup k v [] h = absurd (ground arith)
  In-lookup k v ((j, w) ∷ m) h = elim (Bool-cases (e.beq j k)) [
    | inl s ↦ let value : w ≡ v = ground arith in inl (λ i. ((e.beq_iff j k).0 s i, value i))
    | inr s ↦ inr (In-lookup k v m (ground arith))
  ]

  pub lookup-In :
      (k : K) (v : V) (m : List (K × V)) → Distinct m → In (k, v) m → lookup k m ≡ some v
  unfolding lookup
  lookup-In k v [] d m = elim m [ ]
  lookup-In k v ((j, w) ∷ m) (n, d) (inl s) =
      rw ((e.beq_iff j k).1 (ap (λ p. p.0) s)) (ap (λ p. some p.1) s)
  lookup-In k v ((j, w) ∷ m) (n, d) (inr i) =
      let there = lookup-In k v m d i in ground (arith, e.beq_iff j k)
