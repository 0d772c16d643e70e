-- ===== src/Base/Keyed.antt =====
-- Lists whose elements have different keys, and what keeps them so.
use mathlib.Core.Path.{◌≡◌, sym, ap}
use mathlib.Core.Logic.{◌≢◌, ◌↔◌, inl, inr}
use mathlib.Core.Bool.{Bool, true}
use mathlib.Core.List.{List, [], ◌∷◌}
use mathlib.Core.Option.{some}
use open_berat.Base.Logic.{Bool-cases}
use open_berat.Base.Lists.{All, In, find, filter, All-intro, All-In, In-filter_inv}
use open_berat.Base.Sorting.{insert_sorted, sort, insert_sorted-All, sort-All}

module _ {ℓ κ} {A : Type ℓ} {K : Type κ} (key : A → K) where
  abbrev pub Keyed : List A → Type κ
  Keyed [] = Unit
  Keyed (x ∷ xs) = All (λ y. key y ≢ key x) xs × Keyed xs

  pub filter-Keyed : (p : A → Bool) (xs : List A) → Keyed xs → Keyed (filter p xs)
  filter-Keyed p [] h = tt
  filter-Keyed p (x ∷ xs) (n, h) = elim (Bool-cases (p x)) [
    | inl e ↦ rw e (filtered, filter-Keyed p xs h)
    | inr e ↦ rw e (filter-Keyed p xs h)
  ]
    where
      filtered : All (λ y. key y ≢ key x) (filter p xs)
      filtered =
          All-intro _ _ (λ a m. All-In (λ y. key y ≢ key x) a xs n (In-filter_inv p a xs m).0)

  insert_sorted-Keyed :
      (lt : A → A → Bool) (x : A) (ys : List A)
      → All (λ y. key y ≢ key x) ys
      → Keyed ys
      → Keyed (insert_sorted lt x ys)
  unfolding insert_sorted
  insert_sorted-Keyed lt x [] n h = (tt, tt)
  insert_sorted-Keyed lt x (y ∷ ys) (n, ns) (k, h) = elim (Bool-cases (lt y x)) [
    | inl e ↦ rw e (
      insert_sorted-All lt (λ z. key z ≢ key y) x ys (λ s. n (sym s)) k,
      insert_sorted-Keyed lt x ys ns h,
    )
    | inr e ↦ rw e ((n, ns), (k, h))
  ]

  pub sort-Keyed : (lt : A → A → Bool) (xs : List A) → Keyed xs → Keyed (sort lt xs)
  unfolding sort
  sort-Keyed lt [] h = tt
  sort-Keyed lt (x ∷ xs) (n, h) =
      insert_sorted-Keyed lt x (sort lt xs) (sort-All lt (λ y. key y ≢ key x) xs n)
        (sort-Keyed lt xs h)

  pub find-Keyed :
      (p : A → Bool) (a : A) (xs : List A)
      → ((x : A) → (p x ≡ true) ↔ (key x ≡ key a))
      → Keyed xs
      → In a xs
      → find p xs ≡ some a
  find-Keyed p a [] h k m = elim m [ ]
  find-Keyed p a (x ∷ xs) h (n, k) (inl e) = rw ((h x).1 (ap key e)) (ap some e)
  find-Keyed p a (x ∷ xs) h (n, k) (inr m) = elim (Bool-cases (p x)) [
    | inl e ↦ absurd (All-In (λ y. key y ≢ key x) a xs n m (sym ((h x).0 e)))
    | inr e ↦ rw e (find-Keyed p a xs h k m)
  ]
