-- ===== src/Policy/Canonical.antt =====
-- backend/src/policy.rs: `normalise` answers a normal form, and answers a normal form with itself.
use open_berat.Base.{
  ℕ, Bool, true, false, ◌||◌, not, List, [], ◌∷◌, ◌++◌, ◌≡◌, inl, inr, refl, sym, arith, subst,
  ◌==◌, Bool-cases, ok, Result-cases, All, Text, contains, any, before, join, starts_with,
  is_control, to_lower, to_lower_idem,
}
use open_berat.Base.Utf8.{IsText, encode_char, encode, from_utf8-encode}
use open_berat.Policy.Uri.{resolve, decode_bytes, decode, slashes, clean, normalise, is_nil}
use open_berat.Policy.Segments.{IsResolved, path_of}
use open_berat.Policy.Resolve.{resolve-IsResolved, IsResolved-resolve}
use open_berat.Policy.Normal.{IsPlain, IsNormal, resolve-chars, to_lower-IsResolved, lower-IsPlain}

slashes-IsPlain :
    (s : Text) → contains b'%' s ≡ false → any is_control s ≡ false → All IsPlain (slashes s)
unfolding slashes is_control
slashes-IsPlain [] h k = tt
slashes-IsPlain (c ∷ s) h k = (ground arith, slashes-IsPlain s (ground arith) (ground arith))

clean-IsNormal : (decoded path : Text) → clean decoded ≡ ok path → IsNormal path
unfolding clean
clean-IsNormal decoded path h = elim (Bool-cases (contains b'%' decoded)) [
  | inl e ↦ absurd (ground arith)
  | inr e ↦ elim (Bool-cases (any is_control decoded)) [
    | inl f ↦ absurd (ground arith)
    | inr f ↦
        let same : to_lower (resolve (slashes decoded)) ≡ path = ground arith in
        let made : IsNormal (to_lower (resolve (slashes decoded))) = record {
          resolved =
              to_lower-IsResolved (resolve (slashes decoded))
                (resolve-IsResolved (slashes decoded));
          plain = lower-IsPlain (resolve (slashes decoded)) (
              resolve-chars IsPlain (slashes decoded) (unfold is_control in refl)
                (slashes-IsPlain decoded e f));
          lowered = to_lower_idem (resolve (slashes decoded));
        } in
        subst IsNormal same made
  ]
]

-- What `normalise` answers is in normal form: whole segments, none of them empty, `.` or `..`, no `%`,
-- backslash or control character, and no capital letter of ASCII.
pub normalise-IsNormal : (raw_uri path : Text) → normalise raw_uri ≡ ok path → IsNormal path
unfolding normalise
normalise-IsNormal raw_uri path h =
    let p = before b'?' raw_uri in
    elim (Bool-cases (not (starts_with (b'/' ∷ []) p) || contains b'#' p)) [
      | inl e ↦ absurd (ground arith)
      | inr e ↦ elim (Result-cases (decode p)) [
        | inr (reason, f) ↦ absurd (ground arith)
        | inl (decoded, f) ↦ clean-IsNormal decoded path (ground arith)
      ]
    ]

-- Bytes without a `%` decode to themselves.
pub decode_bytes-plain : (bs : Text) → contains b'%' bs ≡ false → decode_bytes 0 bs ≡ ok bs
unfolding decode_bytes
decode_bytes-plain [] h = refl
decode_bytes-plain (b ∷ bs) h =
    let differs : (b == b'%') ≡ false = ground arith in
    rw (differs, decode_bytes) (rw (decode_bytes-plain bs (ground arith)) refl)

pub contains-append : (c : ℕ) (s t : Text) → contains c (s ++ t) ≡ (contains c s || contains c t)
contains-append c [] t = refl
contains-append c (d ∷ s) t = ground (arith, contains-append c s t)

encode_char-plain : (c : ℕ) → (c == b'%') ≡ false → contains b'%' (encode_char c) ≡ false
unfolding encode_char
encode_char-plain c h = ground arith

pub encode-plain : (s : Text) → contains b'%' s ≡ false → contains b'%' (encode s) ≡ false
unfolding encode
encode-plain [] h = refl
encode-plain (c ∷ s) h =
    ground
      (arith, contains-append b'%' (encode_char c) (encode s), encode_char-plain c, encode-plain s)

pub plain-contains : (s : Text) → All IsPlain s → contains b'%' s ≡ false
plain-contains [] h = refl
plain-contains (c ∷ s) (k, h) = ground (arith, plain-contains s h)

plain-control : (s : Text) → All IsPlain s → any is_control s ≡ false
plain-control [] h = refl
plain-control (c ∷ s) (k, h) = ground (arith, plain-control s h)

plain-slashes : (s : Text) → All IsPlain s → slashes s ≡ s
unfolding slashes
plain-slashes [] h = refl
plain-slashes (c ∷ s) (k, h) = ground (arith, plain-slashes s h)

pub before-absent : (c : ℕ) (s : Text) → contains c s ≡ false → before c s ≡ s
unfolding before
before-absent c [] h = refl
before-absent c (d ∷ s) h = ground (arith, before-absent c s)

pub IsResolved-starts : (path : Text) → IsResolved path → starts_with (b'/' ∷ []) path ≡ true
IsResolved-starts path r =
    subst (λ p. starts_with (b'/' ∷ []) p ≡ true) (sym r.shape)
      (starts r.segments r.trailing r.root)
  where
    starts :
        (ss : List Text) (t : Bool)
        → (is_nil ss ≡ true → t ≡ true)
        → starts_with (b'/' ∷ []) (path_of ss t) ≡ true
    starts [] true g = unfold starts_with join in refl
    starts [] false g = absurd (unfold is_nil in (ground (arith, g refl)))
    starts (s ∷ ss) t g = unfold starts_with join in refl

-- A normal form that is a path of its own, without `?` and `#`, is answered with itself.
pub IsNormal-normalise :
    (path : Text)
    → IsText path
    → IsNormal path
    → contains b'?' path ≡ false
    → contains b'#' path ≡ false
    → normalise path ≡ ok path
unfolding normalise decode clean
IsNormal-normalise path v n q f =
    let plain = plain-contains path n.plain in
    rw
      (
        before-absent b'?' path q,
        IsResolved-starts path n.resolved,
        f,
        decode_bytes-plain (encode path) (encode-plain path plain),
        from_utf8-encode path v,
        plain,
        plain-control path n.plain,
        plain-slashes path n.plain,
        IsResolved-resolve path n.resolved,
        n.lowered,
      )
      refl

-- Normalising once is enough: the answer of `normalise`, where it is a path of its own (without a
-- decoded `?` or `#`), is answered with itself.
pub normalise_idem :
    (raw_uri path : Text)
    → IsText path
    → normalise raw_uri ≡ ok path
    → contains b'?' path ≡ false
    → contains b'#' path ≡ false
    → IsNormal path × (normalise path ≡ ok path)
normalise_idem raw_uri path v h q f =
    let n = normalise-IsNormal raw_uri path h in (n, IsNormal-normalise path v n q f)
