-- ===== src/Base/Sorting.antt =====
-- A stable sort by a Boolean order, what it keeps.
use Prim.Native.Nat.{suc}
use mathlib.Core.Path.{◌≡◌, ◌∙◌, refl, sym, ap}
use mathlib.Core.Logic.{inl, inr}
use mathlib.Core.Bool.{Bool, true, false}
use mathlib.Core.List.{List, [], ◌∷◌, ◌++◌}
use native.Mathlib.Omega.{arith}
use open_berat.Base.Logic.{Bool-cases, if◌then◌else◌}
use open_berat.Base.Lists.{All, In, filter, length, All-intro, All-In, All-filter}

-- A strict order in which `lt c b ≡ false` compares: the order of the keys of the elements.
pub record IsOrder {ℓ} {A : Type ℓ} (lt : A → A → Bool) : Type ℓ where
  pub asym : (a b : A) → lt a b ≡ true → lt b a ≡ false
  pub co_trans : (a b c : A) → lt a b ≡ true → lt c b ≡ false → lt a c ≡ true

module _ {ℓ} {A : Type ℓ} (lt : A → A → Bool) where
  unfoldable pub insert_sorted : A → List A → List A
  insert_sorted x [] = x ∷ []
  insert_sorted x (y ∷ ys) =
      let rest = insert_sorted x ys in if lt y x then y ∷ rest else x ∷ y ∷ ys

  unfoldable pub sort : List A → List A
  sort [] = []
  sort (x ∷ xs) = insert_sorted x (sort xs)

  -- Nothing stands behind an element that belongs before it.
  abbrev pub Sorted : List A → Type 0
  Sorted [] = Unit
  Sorted (x ∷ xs) = All (λ y. lt y x ≡ false) xs × Sorted xs

  pub insert_sorted-All {κ} :
      (P : A → Type κ) (x : A) (ys : List A) → P x → All P ys → All P (insert_sorted x ys)
  unfolding insert_sorted
  insert_sorted-All P x [] p h = (p, tt)
  insert_sorted-All P x (y ∷ ys) p (q, h) = elim (Bool-cases (lt y x)) [
    | inl e ↦ rw e (q, insert_sorted-All P x ys p h)
    | inr e ↦ rw e (p, (q, h))
  ]

  pub sort-All {κ} : (P : A → Type κ) (xs : List A) → All P xs → All P (sort xs)
  unfolding sort
  sort-All P [] h = h
  sort-All P (x ∷ xs) (p, h) = insert_sorted-All P x (sort xs) p (sort-All P xs h)

  pub In-insert_sorted : (a x : A) (ys : List A) → In a (x ∷ ys) → In a (insert_sorted x ys)
  unfolding insert_sorted
  In-insert_sorted a x [] m = m
  In-insert_sorted a x (y ∷ ys) m = elim (Bool-cases (lt y x)) [
    | inr e ↦ rw e m
    | inl e ↦ rw e (elim m [
      | inl s ↦ inr (In-insert_sorted a x ys (inl s))
      | inr (inl s) ↦ inl s
      | inr (inr k) ↦ inr (In-insert_sorted a x ys (inr k))
    ])
  ]

  pub In-sort : (a : A) (xs : List A) → In a xs → In a (sort xs)
  unfolding sort
  In-sort a [] m = m
  In-sort a (x ∷ xs) (inl s) = In-insert_sorted a x (sort xs) (inl s)
  In-sort a (x ∷ xs) (inr m) = In-insert_sorted a x (sort xs) (inr (In-sort a xs m))

  pub In-sort_inv : (a : A) (xs : List A) → In a (sort xs) → In a xs
  In-sort_inv a xs m =
      All-In (λ b. In b xs) a (sort xs) (sort-All (λ b. In b xs) xs (All-intro _ xs (λ b k. k))) m

  pub length-insert_sorted : (x : A) (ys : List A) → length (insert_sorted x ys) ≡ suc (length ys)
  unfolding insert_sorted
  length-insert_sorted x [] = refl
  length-insert_sorted x (y ∷ ys) = ground (arith, length-insert_sorted x ys)

  pub length-sort : (xs : List A) → length (sort xs) ≡ length xs
  unfolding sort
  length-sort [] = refl
  length-sort (x ∷ xs) = length-insert_sorted x (sort xs) ∙ ap suc (length-sort xs)

module _ {ℓ} {A : Type ℓ} (lt : A → A → Bool) (o : IsOrder lt) where
  -- What belongs behind an element belongs behind all that are not behind it.
  All-behind :
      (x y : A) (ys : List A)
      → lt y x ≡ false
      → All (λ z. lt z y ≡ false) ys
      → All (λ z. lt z x ≡ false) ys
  All-behind x y [] n h = tt
  All-behind x y (z ∷ ys) n (m, h) = (
    elim (Bool-cases (lt z x)) [ inl e ↦ ground (arith, o.co_trans z x y e n) | inr e ↦ e ],
    All-behind x y ys n h,
  )

  pub insert_sorted-Sorted :
      (x : A) (ys : List A) → Sorted lt ys → Sorted lt (insert_sorted lt x ys)
  unfolding insert_sorted
  insert_sorted-Sorted x [] s = (tt, tt)
  insert_sorted-Sorted x (y ∷ ys) (h, s) = elim (Bool-cases (lt y x)) [
    | inl e ↦ rw e (insert_sorted-All lt _ x ys (o.asym y x e) h, insert_sorted-Sorted x ys s)
    | inr e ↦ rw e ((e, All-behind x y ys e h), (h, s))
  ]

  pub sort-Sorted : (xs : List A) → Sorted lt (sort lt xs)
  unfolding sort
  sort-Sorted [] = tt
  sort-Sorted (x ∷ xs) = insert_sorted-Sorted x (sort lt xs) (sort-Sorted xs)

  insert_first :
      (x : A) (zs : List A) → All (λ z. lt z x ≡ false) zs → insert_sorted lt x zs ≡ x ∷ zs
  unfolding insert_sorted
  insert_first x [] h = refl
  insert_first x (z ∷ zs) (e, h) = rw e refl

  filter-insert_sorted :
      (p : A → Bool) (x : A) (ys : List A)
      → Sorted lt ys
      → filter p (insert_sorted lt x ys)
        ≡ (if p x then insert_sorted lt x (filter p ys) else filter p ys)
  unfolding insert_sorted
  filter-insert_sorted p x [] s = refl
  filter-insert_sorted p x (y ∷ ys) (h, s) = elim (Bool-cases (lt y x)) [
    | inl e ↦ elim (Bool-cases (p y)) [
      | inl f ↦ ground (arith, filter-insert_sorted p x ys s)
      | inr f ↦ ground (arith, filter-insert_sorted p x ys s)
    ]
    | inr e ↦
        let first =
          insert_first x (filter p (y ∷ ys))
            (All-filter (λ z. lt z x ≡ false) p (y ∷ ys) (e, All-behind x y ys e h)) in
        elim (Bool-cases (p x)) [ inl f ↦ rw (e, f) (sym first) | inr f ↦ rw (e, f) refl ]
  ]

  -- Sorting and then keeping some elements is keeping them and then sorting.
  pub sort-filter : (p : A → Bool) (xs : List A) → sort lt (filter p xs) ≡ filter p (sort lt xs)
  unfolding sort
  sort-filter p [] = refl
  sort-filter p (x ∷ xs) =
      let step = filter-insert_sorted p x (sort lt xs) (sort-Sorted xs) in
      elim (Bool-cases (p x)) [
        | inl e ↦ rw e (ap (insert_sorted lt x) (sort-filter p xs) ∙ sym (step ∙ rw e refl))
        | inr e ↦ rw e (sort-filter p xs ∙ sym (step ∙ rw e refl))
      ]

  pub Sorted-filter : (p : A → Bool) (xs : List A) → Sorted lt xs → Sorted lt (filter p xs)
  Sorted-filter p [] s = tt
  Sorted-filter p (x ∷ xs) (h, s) = elim (Bool-cases (p x)) [
    | inl e ↦ rw e (All-filter (λ z. lt z x ≡ false) p xs h, Sorted-filter p xs s)
    | inr e ↦ rw e (Sorted-filter p xs s)
  ]

  irrefl : (a : A) → lt a a ≡ false
  irrefl a = elim (Bool-cases (lt a a)) [ inl e ↦ o.asym a a e | inr e ↦ e ]

  filter-eq_self : (p : A → Bool) (xs : List A) → All (λ x. p x ≡ true) xs → filter p xs ≡ xs
  filter-eq_self p [] h = refl
  filter-eq_self p (x ∷ xs) (e, h) = rw e (ap (λ l. x ∷ l) (filter-eq_self p xs h))

  -- In a sorted list the elements that belong behind one of it are those that stand behind it, where none
  -- of these ties with it.
  pub filter-behind :
      (xs ys : List A) (x : A)
      → Sorted lt (xs ++ x ∷ ys)
      → All (λ z. lt x z ≡ true) ys
      → filter (lt x) (xs ++ x ∷ ys) ≡ ys
  filter-behind [] ys x s h = rw (irrefl x) (filter-eq_self (lt x) ys h)
  filter-behind (w ∷ xs) ys x (k, s) h =
      rw (All-In (λ y. lt y w ≡ false) x (xs ++ x ∷ ys) k (middle xs)) (filter-behind xs ys x s h)
    where
      middle : (vs : List A) → In x (vs ++ x ∷ ys)
      middle [] = inl refl
      middle (v ∷ vs) = inr (middle vs)
