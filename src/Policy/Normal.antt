-- ===== src/Policy/Normal.antt =====
-- backend/src/policy.rs: what `normalise` answers is in normal form, and is answered with itself.
use mathlib.Core.List.{reverse, map-append}
use open_berat.Base.{
  ℕ, Bool, true, false, ◌&&◌, ◌||◌, not, List, [], ◌∷◌, ◌++◌, map, ◌≡◌, inl, inr, refl, sym, ap,
  ◌∙◌, arith, ◌==◌, Bool-cases, All, All-append, Text, is_empty, text_eq, contains, split, split_on,
  push_front, join, is_control, lower, to_lower,
}
use open_berat.Policy.Uri.{
  pop, resolve_segment, resolve_segments, ends_in_directory, is_nil, resolve,
}
use open_berat.Policy.Segments.{keeps, IsSegment, tail, IsResolved}
use open_berat.Policy.Resolve.{reverse_aux-All}

-- No escape, no backslash, no control character.
abbrev pub is_plain : ℕ → Bool
is_plain c = not (c == b'%') && not (c == b'\\') && not (is_control c)

abbrev pub IsPlain : ℕ → Type 0
IsPlain c = is_plain c ≡ true

-- Whole segments, plain characters and no capital letter.
pub record IsNormal (path : Text) : Type 0 where
  pub resolved : IsResolved path
  pub plain : All IsPlain path
  pub lowered : to_lower path ≡ path

-- What holds of every character of a path holds of its resolution.
module _ (P : ℕ → Type 0) where
  push_front-chars : (c : ℕ) (ps : List Text) → P c → All (All P) ps → All (All P) (push_front c ps)
  push_front-chars c [] k h = ((k, tt), tt)
  push_front-chars c (p ∷ ps) k (h, hs) = ((k, h), hs)

  pub split-chars : (s : Text) → All P s → All (All P) (split_on b'/' s)
  unfolding split
  split-chars [] h = (tt, tt)
  split-chars (c ∷ s) (k, h) = elim (Bool-cases (c == b'/')) [
    | inl e ↦ rw e (tt, split-chars s h)
    | inr e ↦ rw e (push_front-chars c (split_on b'/' s) k (split-chars s h))
  ]

  join-chars : (ps : List Text) → P b'/' → All (All P) ps → All P (join b'/' ps)
  unfolding join
  join-chars [] k h = tt
  join-chars (p ∷ []) k (h, hs) = h
  join-chars (p ∷ q ∷ ps) k (h, hs) =
      All-append P p (b'/' ∷ join b'/' (q ∷ ps)) h (k, join-chars (q ∷ ps) k hs)

  pop-chars : (ss : List Text) → All (All P) ss → All (All P) (pop ss)
  unfolding pop
  pop-chars [] h = tt
  pop-chars (s ∷ ss) (h, hs) = hs

  resolve_segment-chars :
      (ss : List Text) (s : Text) → All (All P) ss → All P s → All (All P) (resolve_segment ss s)
  unfolding resolve_segment
  resolve_segment-chars ss s h k = elim (Bool-cases (is_empty s || text_eq s (b'.' ∷ []))) [
    | inl e ↦ rw e h
    | inr e ↦ elim (Bool-cases (text_eq s (b'.' ∷ b'.' ∷ []))) [
      | inl f ↦ rw (e, f) (pop-chars ss h)
      | inr f ↦ rw (e, f) (k, h)
    ]
  ]

  resolve_segments-chars :
      (ss ps : List Text) → All (All P) ss → All (All P) ps → All (All P) (resolve_segments ss ps)
  unfolding resolve_segments
  resolve_segments-chars ss [] h k = h
  resolve_segments-chars ss (p ∷ ps) h (k, ks) =
      resolve_segments-chars (resolve_segment ss p) ps (resolve_segment-chars ss p h k) ks

  pub resolve-chars : (path : Text) → P b'/' → All P path → All P (resolve path)
  unfolding resolve
  resolve-chars path k h =
      let stack = resolve_segments [] (split_on b'/' path) in
      let ss = reverse stack in
      let kept : All (All P) ss =
        reverse_aux-All (All P) stack []
          (resolve_segments-chars [] (split_on b'/' path) tt (split-chars path h)) tt in
      elim (Bool-cases (not (is_nil ss) && ends_in_directory path)) [
        | inl e ↦
            rw (e, resolve)
              (k, All-append P (join b'/' ss) (b'/' ∷ []) (join-chars ss k kept) (k, tt))
        | inr e ↦ rw (e, resolve) (k, join-chars ss k kept)
      ]

-- Lower case keeps the segments.
to_lower-join : (ps : List Text) → to_lower (join b'/' ps) ≡ join b'/' (map to_lower ps)
unfolding join
to_lower-join [] = refl
to_lower-join (p ∷ []) = refl
to_lower-join (p ∷ q ∷ ps) =
    map-append lower p (b'/' ∷ join b'/' (q ∷ ps))
    ∙ ap (λ t. to_lower p ++ b'/' ∷ t) (to_lower-join (q ∷ ps))

contains-to_lower : (s : Text) → contains b'/' (to_lower s) ≡ contains b'/' s
contains-to_lower [] = refl
contains-to_lower (c ∷ s) = ground (arith, contains-to_lower s)

keeps-to_lower : (s : Text) → keeps (to_lower s) ≡ keeps s
keeps-to_lower [] = refl
keeps-to_lower (a ∷ []) = ground arith
keeps-to_lower (a ∷ b ∷ []) = ground arith
keeps-to_lower (a ∷ b ∷ c ∷ s) = ground arith

segments-to_lower : (ss : List Text) → All IsSegment ss → All IsSegment (map to_lower ss)
segments-to_lower [] h = tt
segments-to_lower (s ∷ ss) ((k, n), h) =
    ((keeps-to_lower s ∙ k, contains-to_lower s ∙ n), segments-to_lower ss h)

tail-to_lower : (t : Bool) → map to_lower (tail t) ≡ tail t
tail-to_lower true = refl
tail-to_lower false = refl

is_nil-map : (ss : List Text) → is_nil (map to_lower ss) ≡ is_nil ss
unfolding is_nil
is_nil-map [] = refl
is_nil-map (s ∷ ss) = refl

pub to_lower-IsResolved : (path : Text) → IsResolved path → IsResolved (to_lower path)
to_lower-IsResolved path r = record {
  segments = map to_lower r.segments;
  trailing = r.trailing;
  kept = segments-to_lower r.segments r.kept;
  root = λ e. r.root (sym (is_nil-map r.segments) ∙ e);
  shape =
      ap to_lower r.shape
      ∙ to_lower-join ([] ∷ (r.segments ++ tail r.trailing))
      ∙ ap (λ ps. join b'/' ([] ∷ ps))
          (map-append to_lower r.segments (tail r.trailing)
            ∙ ap (λ ps. map to_lower r.segments ++ ps) (tail-to_lower r.trailing));
}

pub lower-IsPlain : (s : Text) → All IsPlain s → All IsPlain (to_lower s)
unfolding is_control
lower-IsPlain [] h = tt
lower-IsPlain (c ∷ s) (k, h) = (ground arith, lower-IsPlain s h)
