-- ===== src/Policy/Malformed.antt =====
-- backend/src/policy.rs: the refusals of `normalise` and `readings` all have the same reason.
use open_berat.Base.{
  ℕ, zero, suc, Bool, true, false, [], ◌∷◌, ◌≡◌, inl, inr, refl, arith, ◌==◌, Bool-cases,
  Option-cases, Result, ok, err, and_then, before, if◌then◌else◌, Text,
}
use open_berat.Base.Utf8.{encode, from_utf8}
use open_berat.Policy.Types.{Deny, malformed_uri}
use open_berat.Policy.Uri.{
  to_digit, escape, decode_bytes, decode, clean, normalise, decode_resolved, readings,
}

-- A result that fails, if at all, for a malformed URI.
abbrev pub Malformed : {A : Type 0} → Result Deny A → Type 0
Malformed (ok a) = Unit
Malformed (err e) = e ≡ malformed_uri

pub Malformed-err :
    {A : Type 0} {r : Result Deny A} {e : Deny} → Malformed r → r ≡ err e → e ≡ malformed_uri
Malformed-err {r = ok a} m h = cc
Malformed-err {r = err d} m h = ground arith

Malformed-and_then :
    {A B : Type 0} (r : Result Deny A) (f : A → Result Deny B)
    → Malformed r
    → ((a : A) → Malformed (f a))
    → Malformed (and_then r f)
Malformed-and_then (ok a) f m k = k a
Malformed-and_then (err e) f m k = m

Malformed-if :
    {A : Type 0} (b : Bool) (r s : Result Deny A)
    → Malformed r
    → Malformed s
    → Malformed (if b then r else s)
Malformed-if true r s m n = m
Malformed-if false r s m n = n

escape-Malformed : (raw : Text) → Malformed (escape raw)
unfolding escape
escape-Malformed [] = refl
escape-Malformed (h ∷ []) = refl
escape-Malformed (h ∷ l ∷ raw) = elim (Option-cases (to_digit h)) [
  | inl e ↦ rw e refl
  | inr (a, e) ↦ elim (Option-cases (to_digit l)) [
    | inl d ↦ rw (e, d) refl
    | inr (b, d) ↦ rw (e, d) tt
  ]
]

decode_bytes-Malformed : (skip : ℕ) (raw : Text) → Malformed (decode_bytes skip raw)
unfolding decode_bytes
decode_bytes-Malformed skip [] = tt
decode_bytes-Malformed (suc skip) (c ∷ raw) = decode_bytes-Malformed skip raw
decode_bytes-Malformed zero (c ∷ raw) = elim (Bool-cases (c == b'%')) [
  | inl e ↦
      rw (e, decode_bytes)
        (Malformed-and_then (escape raw) _ (escape-Malformed raw) λ byte.
          Malformed-and_then (decode_bytes 2 raw) _ (decode_bytes-Malformed 2 raw) (λ out. tt))
  | inr e ↦
      rw (e, decode_bytes)
        (Malformed-and_then (decode_bytes 0 raw) _ (decode_bytes-Malformed 0 raw) (λ out. tt))
]

decode-Malformed : (path : Text) → Malformed (decode path)
unfolding decode
decode-Malformed path =
    Malformed-and_then (decode_bytes 0 (encode path)) _ (decode_bytes-Malformed 0 (encode path))
      λ bytes. elim (Option-cases (from_utf8 bytes)) [ inl e ↦ rw e refl | inr (s, e) ↦ rw e tt ]

clean-Malformed : (decoded : Text) → Malformed (clean decoded)
unfolding clean
clean-Malformed decoded = ground arith

normalise-Malformed : (raw_uri : Text) → Malformed (normalise raw_uri)
unfolding normalise
normalise-Malformed raw_uri =
    Malformed-if _ (err malformed_uri) _ refl
      (Malformed-and_then (decode (before b'?' raw_uri)) clean (decode-Malformed _) clean-Malformed)

decode_resolved-Malformed : (resolved : Text) → Malformed (decode_resolved resolved)
unfolding decode_resolved
decode_resolved-Malformed resolved =
    Malformed-and_then (decode resolved) _ (decode-Malformed resolved) (λ out. tt)

readings-Malformed : (raw_uri : Text) → Malformed (readings raw_uri)
unfolding readings
readings-Malformed raw_uri =
    Malformed-and_then (normalise raw_uri) _ (normalise-Malformed raw_uri) λ decoded.
      Malformed-and_then (decode_resolved _) _ (decode_resolved-Malformed _) λ resolved.
        Malformed-and_then (decode_resolved _) _ (decode_resolved-Malformed _) λ bare. tt

-- A URI that has no readings is always refused as malformed, whichever of the readings failed and
-- wherever.
pub readings-err : (raw_uri : Text) {e : Deny} → readings raw_uri ≡ err e → e ≡ malformed_uri
readings-err raw_uri h = Malformed-err (readings-Malformed raw_uri) h
