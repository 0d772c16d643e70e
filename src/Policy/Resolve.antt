-- ===== src/Policy/Resolve.antt =====
-- backend/src/policy.rs: `resolve` answers a path of whole segments, and answers such a path with itself.
use mathlib.Core.List.{reverse, reverse_aux, reverse_aux-reverse_aux-nil, append_assoc, append-nil}
use open_berat.Base.{
  Bool, true, false, ◌&&◌, ◌||◌, not, List, [], ◌∷◌, ◌++◌, ◌≡◌, inl, inr, refl, sym, ap, ◌∙◌, arith,
  Bool-cases, All, All-append, Text, is_empty, text_eq, contains, split_on, join,
}
use open_berat.Base.Splitting.{join-append}
use open_berat.Policy.Uri.{
  pop, resolve_segment, resolve_segments, ends_in_directory, is_nil, resolve,
}
use open_berat.Policy.Segments.{
  keeps, IsSegment, tail, path_of, IsResolved, split-All, split-join, ends_with-last,
}

pop-All : (ss : List Text) → All IsSegment ss → All IsSegment (pop ss)
unfolding pop
pop-All [] h = tt
pop-All (s ∷ ss) (h, hs) = hs

resolve_segment-All :
    (ss : List Text) (s : Text)
    → All IsSegment ss
    → contains b'/' s ≡ false
    → All IsSegment (resolve_segment ss s)
unfolding resolve_segment
resolve_segment-All ss s h k = elim (Bool-cases (is_empty s || text_eq s (b'.' ∷ []))) [
  | inl e ↦ rw e h
  | inr e ↦ elim (Bool-cases (text_eq s (b'.' ∷ b'.' ∷ []))) [
    | inl f ↦ rw (e, f) (pop-All ss h)
    | inr f ↦ rw (e, f) ((rw (e, f) refl, k), h)
  ]
]

resolve_segments-All :
    (ss ps : List Text)
    → All IsSegment ss
    → All (λ p. contains b'/' p ≡ false) ps
    → All IsSegment (resolve_segments ss ps)
unfolding resolve_segments
resolve_segments-All ss [] h k = h
resolve_segments-All ss (p ∷ ps) h (k, ks) =
    resolve_segments-All (resolve_segment ss p) ps (resolve_segment-All ss p h k) ks

pub reverse_aux-All :
    (P : Text → Type 0) (xs ys : List Text) → All P xs → All P ys → All P (reverse_aux xs ys)
reverse_aux-All P [] ys h k = k
reverse_aux-All P (x ∷ xs) ys (h, hs) k = reverse_aux-All P xs (x ∷ ys) hs (h, k)

-- A kept segment goes on the stack.
resolve_segments-kept :
    (ss ps qs : List Text)
    → All IsSegment ps
    → resolve_segments ss (ps ++ qs) ≡ resolve_segments (reverse_aux ps ss) qs
unfolding resolve_segments resolve_segment
resolve_segments-kept ss [] qs h = refl
resolve_segments-kept ss (p ∷ ps) qs ((k, s), hs) =
    let pushed : resolve_segment ss p ≡ p ∷ ss = ground arith in
    ap (λ t. resolve_segments t (ps ++ qs)) pushed ∙ resolve_segments-kept (p ∷ ss) ps qs hs

resolve_segments-tail : (ss : List Text) (t : Bool) → resolve_segments ss (tail t) ≡ ss
unfolding resolve_segments resolve_segment
resolve_segments-tail ss true = refl
resolve_segments-tail ss false = refl

-- The last slash of a path, and what stands behind it.
last-IsSegment :
    (p : Text) (ps : List Text)
    → All IsSegment (p ∷ ps)
    → (b : Text) × (l : Text) × IsSegment l × (b'/' ∷ join b'/' (p ∷ ps) ≡ b ++ b'/' ∷ l)
unfolding join
last-IsSegment p [] (h, hs) = ([], p, h, refl)
last-IsSegment p (q ∷ ps) (h, hs) =
    let (b, l, k, e) = last-IsSegment q ps hs in
    (
      b'/' ∷ (p ++ b),
      l,
      k,
      ap (λ t. b'/' ∷ (p ++ t)) e ∙ ap (λ t. b'/' ∷ t) (sym (append_assoc p b (b'/' ∷ l))),
    )

text_eq-kept :
    (l : Text)
    → keeps l ≡ true
    → (text_eq [] l ≡ false)
      × (text_eq (b'.' ∷ []) l ≡ false)
      × (text_eq (b'.' ∷ b'.' ∷ []) l ≡ false)
text_eq-kept [] h = absurd (ground arith)
text_eq-kept (a ∷ []) h = ground arith
text_eq-kept (a ∷ b ∷ []) h = ground arith
text_eq-kept (a ∷ b ∷ c ∷ l) h = (refl, ground arith, ground arith)

ends_in_directory-last :
    (b l : Text)
    → contains b'/' l ≡ false
    → ends_in_directory (b ++ b'/' ∷ l)
      ≡ (text_eq [] l || text_eq (b'.' ∷ []) l || text_eq (b'.' ∷ b'.' ∷ []) l)
unfolding ends_in_directory
ends_in_directory-last b l h =
    rw
      (
        ends_with-last [] b l refl h,
        ends_with-last (b'.' ∷ []) b l refl h,
        ends_with-last (b'.' ∷ b'.' ∷ []) b l refl h,
      )
      refl

ends_in_directory-path_of :
    (p : Text) (ps : List Text) (t : Bool)
    → All IsSegment (p ∷ ps)
    → ends_in_directory (path_of (p ∷ ps) t) ≡ t
unfolding join
ends_in_directory-path_of p ps true h =
    ap ends_in_directory (join-append b'/' ([] ∷ p ∷ ps) ([] ∷ []) tt tt)
    ∙ ends_in_directory-last (b'/' ∷ join b'/' (p ∷ ps)) [] refl
ends_in_directory-path_of p ps false h =
    let (b, l, (k, s), e) = last-IsSegment p ps h in
    ap (λ qs. ends_in_directory (join b'/' ([] ∷ qs))) (append-nil (p ∷ ps))
    ∙ ap ends_in_directory e
    ∙ ends_in_directory-last b l s
    ∙ ground (arith, text_eq-kept l)

tail-All : (t : Bool) → All (λ p. contains b'/' p ≡ false) (tail t)
tail-All true = (refl, tt)
tail-All false = tt

segments-All : (ss : List Text) → All IsSegment ss → All (λ p. contains b'/' p ≡ false) ss
segments-All [] h = tt
segments-All (s ∷ ss) ((k, h), hs) = (h, segments-All ss hs)

-- What `resolve` writes, from the segments that are left.
resolve-of :
    (path : Text) (ss : List Text) (t : Bool)
    → reverse (resolve_segments [] (split_on b'/' path)) ≡ ss
    → (not (is_nil ss) && ends_in_directory path) ≡ (not (is_nil ss) && t)
    → (is_nil ss ≡ true → t ≡ true)
    → resolve path ≡ path_of ss t
unfolding resolve join is_nil
resolve-of path [] true e f g = rw (e, resolve) refl
resolve-of path [] false e f g = absurd (ground (arith, g refl))
resolve-of path (s ∷ ss) true e f g =
    rw (e, f, resolve) (ap (λ t. b'/' ∷ t) (sym (join-append b'/' (s ∷ ss) ([] ∷ []) tt tt)))
resolve-of path (s ∷ ss) false e f g =
    rw (e, f, resolve) (ap (λ ps. b'/' ∷ join b'/' ps) (sym (append-nil (s ∷ ss))))

pub resolve-IsResolved : (path : Text) → IsResolved (resolve path)
unfolding is_nil
resolve-IsResolved path =
    let ss = reverse (resolve_segments [] (split_on b'/' path)) in
    let kept : All IsSegment ss =
      reverse_aux-All IsSegment (resolve_segments [] (split_on b'/' path)) []
        (resolve_segments-All [] (split_on b'/' path) tt (split-All path)) tt in
    let t = is_nil ss || ends_in_directory path in
    record {
      segments = ss;
      trailing = t;
      kept = kept;
      root = λ e. ground arith;
      shape = resolve-of path ss t refl (ground arith) (λ e. ground arith);
    }

-- A path of whole segments resolves to itself.
pub IsResolved-resolve : (path : Text) → IsResolved path → resolve path ≡ path
unfolding resolve_segments resolve_segment
IsResolved-resolve path r =
    let ss = r.segments in
    let t = r.trailing in
    let pieces : split_on b'/' path ≡ [] ∷ (ss ++ tail t) =
      ap (split_on b'/') r.shape
      ∙ split-join ([] ∷ (ss ++ tail t)) tt (
        refl,
        All-append (λ p. contains b'/' p ≡ false) ss (tail t) (segments-All ss r.kept) (tail-All t),
      ) in
    let stack : reverse (resolve_segments [] (split_on b'/' path)) ≡ ss =
      ap (λ ps. reverse (resolve_segments [] ps)) pieces
      ∙ ap reverse
          (resolve_segments-kept [] ss (tail t) r.kept ∙ resolve_segments-tail (reverse ss) t)
      ∙ reverse_aux-reverse_aux-nil ss [] in
    resolve-of path ss t stack (directory ss t r.kept (r.shape)) r.root ∙ sym r.shape
  where
    directory :
        (ss : List Text) (t : Bool)
        → All IsSegment ss
        → path ≡ path_of ss t
        → (not (is_nil ss) && ends_in_directory path) ≡ (not (is_nil ss) && t)
    directory [] t h e = unfold is_nil in refl
    directory (s ∷ ss) t h e =
        ap (λ b. not (is_nil (s ∷ ss)) && b)
          (ap ends_in_directory e ∙ ends_in_directory-path_of s ss t h)
