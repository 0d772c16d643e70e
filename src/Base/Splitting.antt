-- ===== src/Base/Splitting.antt =====
-- Laws of `split`, `join` and `strip_prefix`.
use Prim.Native.Nat.{ℕ}
use mathlib.Core.Path.{◌≡◌, refl, sym, ap, ◌∙◌}
use mathlib.Core.Logic.{◌≢◌, inl, inr}
use mathlib.Core.Bool.{Bool}
use mathlib.Core.List.{List, [], ◌∷◌, ◌++◌, append_assoc}
use mathlib.Core.Option.{some}
use native.Mathlib.Omega.{arith}
use open_berat.Base.Logic.{◌==◌, Bool-cases, ==_iff, ==_refl}
use open_berat.Base.Lists.{All}
use open_berat.Base.Strings.{Text, split, split_on, push_front, join, strip_prefix}

-- A list with a first element.
abbrev pub IsCons {ℓ} : {A : Type ℓ} → List A → Type 0
IsCons [] = ⊥
IsCons (x ∷ xs) = Unit {0}

push_front-IsCons : (c : ℕ) (ps : List Text) → IsCons (push_front c ps)
push_front-IsCons c [] = tt
push_front-IsCons c (p ∷ ps) = tt

pub split-IsCons : (p : ℕ → Bool) (s : Text) → IsCons (split p s)
unfolding split
split-IsCons p [] = tt
split-IsCons p (c ∷ s) = elim (Bool-cases (p c)) [
  | inl e ↦ rw e tt
  | inr e ↦ rw e (push_front-IsCons c (split p s))
]

push_front-append :
    (c : ℕ) (ps qs : List Text) → IsCons ps → push_front c (ps ++ qs) ≡ push_front c ps ++ qs
push_front-append c (p ∷ ps) qs h = refl
push_front-append c [] qs h = absurd h

module _ (c : ℕ) where
  join-push_front : (d : ℕ) (ps : List Text) → IsCons ps → join c (push_front d ps) ≡ d ∷ join c ps
  unfolding join
  join-push_front d (p ∷ []) h = refl
  join-push_front d (p ∷ q ∷ ps) h = refl
  join-push_front d [] h = absurd h

  join-cons : (p : Text) (ps : List Text) → IsCons ps → join c (p ∷ ps) ≡ p ++ c ∷ join c ps
  unfolding join
  join-cons p (q ∷ ps) h = refl
  join-cons p [] h = absurd h

  -- Joining what was split gives the text back.
  pub join-split : (s : Text) → join c (split_on c s) ≡ s
  unfolding split join
  join-split [] = refl
  join-split (d ∷ s) = elim (Bool-cases (d == c)) [
    | inl e ↦ rw e (
        join-cons [] (split_on c s) (split-IsCons _ s)
        ∙ ap (λ t. c ∷ t) (join-split s)
        ∙ ap (λ (x : ℕ). x ∷ s) (sym ((==_iff d c).0 e)))
    | inr e ↦
        rw e (join-push_front d (split_on c s) (split-IsCons _ s) ∙ ap (λ t. d ∷ t) (join-split s))
  ]

  -- A separator splits the text on its left apart from the text on its right.
  pub split-append : (s t : Text) → split_on c (s ++ c ∷ t) ≡ split_on c s ++ split_on c t
  unfolding split
  split-append [] t = rw (==_refl c)
  split-append (d ∷ s) t = elim (Bool-cases (d == c)) [
    | inl e ↦ rw e (ap (λ ps. [] ∷ ps) (split-append s t))
    | inr e ↦ rw e (
        ap (push_front d) (split-append s t)
        ∙ push_front-append d (split_on c s) (split_on c t) (split-IsCons _ s))
  ]

  pub join-append :
      (ps qs : List Text) → IsCons ps → IsCons qs → join c (ps ++ qs) ≡ join c ps ++ c ∷ join c qs
  unfolding join
  join-append [] qs h k = absurd h
  join-append (p ∷ []) (q ∷ qs) h k = refl
  join-append (p ∷ []) [] h k = absurd k
  join-append (p ∷ p' ∷ ps) qs h k =
      ap (λ t. p ++ c ∷ t) (join-append (p' ∷ ps) qs tt k)
      ∙ sym (append_assoc p (c ∷ join c (p' ∷ ps)) (c ∷ join c qs))

  -- A piece without the separator is split to itself.
  pub split_piece : (s : Text) → All (λ d. d ≢ c) s → split_on c s ≡ s ∷ []
  unfolding split
  split_piece [] h = refl
  split_piece (d ∷ s) (n, h) = elim (Bool-cases (d == c)) [
    | inl e ↦ absurd (n ((==_iff d c).0 e))
    | inr e ↦ rw e (ap (push_front d) (split_piece s h))
  ]

pub strip_prefix-eq_some : (p s rest : Text) → strip_prefix p s ≡ some rest → s ≡ p ++ rest
unfolding strip_prefix
strip_prefix-eq_some [] s rest h = ground arith
strip_prefix-eq_some (c ∷ p) [] rest h = absurd (ground arith)
strip_prefix-eq_some (c ∷ p) (d ∷ s) rest h = ground (arith, strip_prefix-eq_some p s rest)

pub strip_prefix-append : (p rest : Text) → strip_prefix p (p ++ rest) ≡ some rest
unfolding strip_prefix
strip_prefix-append [] rest = refl
strip_prefix-append (c ∷ p) rest = rw (==_refl c, strip_prefix-append p rest)
