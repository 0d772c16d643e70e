-- ===== src/Policy/Segments.antt =====
-- backend/src/policy.rs: what `resolve` answers, a path of whole segments, and that it leaves such a
-- path as it is.
use open_berat.Base.{
  ℕ, Bool, true, false, ◌&&◌, ◌||◌, not, List, [], ◌∷◌, ◌++◌, ◌≡◌, ◌≢◌, inl, inr, refl, ap, ◌∙◌,
  arith, ◌==◌, Bool-cases, All, Text, is_empty, text_eq, contains, split, split_on, push_front,
  join, ends_with,
}
use open_berat.Base.Splitting.{IsCons, split-append, split_piece}
use open_berat.Policy.Uri.{is_nil}

-- The segments that `resolve` keeps.
abbrev pub keeps : Text → Bool
keeps s = not (is_empty s || text_eq s (b'.' ∷ [])) && not (text_eq s (b'.' ∷ b'.' ∷ []))

abbrev pub IsSegment : Text → Type 0
IsSegment s = (keeps s ≡ true) × (contains b'/' s ≡ false)

-- The empty piece behind a trailing slash. The root has one.
abbrev pub tail : Bool → List Text
tail true = [] ∷ []
tail false = []

abbrev pub path_of : List Text → Bool → Text
path_of segments trailing = join b'/' ([] ∷ (segments ++ tail trailing))

pub record IsResolved (path : Text) : Type 0 where
  pub segments : List Text
  pub trailing : Bool
  pub kept : All IsSegment segments
  pub root : is_nil segments ≡ true → trailing ≡ true
  pub shape : path ≡ path_of segments trailing

plain_piece : (s : Text) → contains b'/' s ≡ false → All (λ d. d ≢ b'/') s
plain_piece [] h = tt
plain_piece (c ∷ s) h = ((λ e. absurd (ground arith)), plain_piece s (ground arith))

push_front-All :
    (c : ℕ) (ps : List Text)
    → (c == b'/') ≡ false
    → All (λ s. contains b'/' s ≡ false) ps
    → All (λ s. contains b'/' s ≡ false) (push_front c ps)
push_front-All c [] e h = (ground arith, tt)
push_front-All c (p ∷ ps) e (h, hs) = (ground arith, hs)

-- No piece of a path holds a slash.
pub split-All : (s : Text) → All (λ p. contains b'/' p ≡ false) (split_on b'/' s)
unfolding split
split-All [] = (refl, tt)
split-All (c ∷ s) = elim (Bool-cases (c == b'/')) [
  | inl e ↦ rw e (refl, split-All s)
  | inr e ↦ rw e (push_front-All c (split_on b'/' s) e (split-All s))
]

pub split-join :
    (ps : List Text)
    → IsCons ps
    → All (λ p. contains b'/' p ≡ false) ps
    → split_on b'/' (join b'/' ps) ≡ ps
unfolding join
split-join (p ∷ []) c (h, hs) = split_piece b'/' p (plain_piece p h)
split-join (p ∷ q ∷ ps) c (h, hs) =
    split-append b'/' p (join b'/' (q ∷ ps))
    ∙ ap (λ l. l ++ split_on b'/' (join b'/' (q ∷ ps))) (split_piece b'/' p (plain_piece p h))
    ∙ ap (λ l. p ∷ l) (split-join (q ∷ ps) tt hs)
split-join [] c h = absurd c

-- The test of the trailing slash looks at the last segment.
ends_with-plain : (u t : Text) → contains b'/' t ≡ false → ends_with (b'/' ∷ u) t ≡ false
unfolding ends_with
ends_with-plain u [] h = refl
ends_with-plain u (c ∷ t) h = ground (arith, ends_with-plain u t)

text_eq-slash : (u a t : Text) → contains b'/' u ≡ false → text_eq u (a ++ b'/' ∷ t) ≡ false
text_eq-slash [] [] t h = refl
text_eq-slash [] (c ∷ a) t h = refl
text_eq-slash (d ∷ u) [] t h = ground arith
text_eq-slash (d ∷ u) (c ∷ a) t h = ground (arith, text_eq-slash u a t)

pub ends_with-last :
    (u a t : Text)
    → contains b'/' u ≡ false
    → contains b'/' t ≡ false
    → ends_with (b'/' ∷ u) (a ++ b'/' ∷ t) ≡ text_eq u t
unfolding ends_with
ends_with-last u [] t h k = ground (arith, ends_with-plain u t)
ends_with-last u (c ∷ a) t h k = ground (arith, ends_with-last u a t, text_eq-slash u a t)
