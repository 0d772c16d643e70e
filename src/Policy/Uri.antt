-- ===== src/Policy/Uri.antt =====
-- backend/src/policy.rs: how a request URI becomes the paths that the rules are matched against
-- (`percent_decode`, `resolve`, `normalise`, `readings`).
use open_berat.Base.{
  ℕ, zero, suc, ◌+◌, ◌-◌, ◌*◌, ◌%◌, Bool, true, false, ◌&&◌, ◌||◌, not, List, [], ◌∷◌, ◌++◌, map,
  Option, none, some, if◌then◌else◌, leb, ◌==◌, Result, ok, err, and_then, Text, is_empty, text_eq,
  any, contains, before, split_on, join, starts_with, ends_with, is_control, to_lower,
}
use mathlib.Core.List.{reverse}
use open_berat.Base.Utf8.{encode, from_utf8}
use open_berat.Policy.Types.{Deny, malformed_uri}

infixl 5 ◌>>=◌
abbrev ◌>>=◌ : {A B : Type 0} → Result Deny A → (A → Result Deny B) → Result Deny B
r >>= f = and_then r f

abbrev ok_or {ℓ} : {E A : Type ℓ} → Option A → E → Result E A
ok_or (some a) e = ok a
ok_or none e = err e

-- `char::to_digit(16)`
unfoldable pub to_digit : ℕ → Option ℕ
to_digit c =
    if leb b'0' c && leb c b'9'
    then some (c - b'0')
    else if leb b'a' c && leb c b'f'
    then some (c - b'a' + 10)
    else if leb b'A' c && leb c b'F'
    then some (c - b'A' + 10)
    else none

-- The byte that the two digits behind a `%` stand for.
unfoldable pub escape : Text → Result Deny ℕ
escape (h ∷ l ∷ _) = do
  hi ← ok_or (to_digit h) malformed_uri
  lo ← ok_or (to_digit l) malformed_uri
  ok ((hi * 16 + lo) % 256)
escape _ = err malformed_uri

-- The loop of `percent_decode` over the bytes from `i` on. Where the source adds three to `i`, the
-- next two bytes are skipped.
unfoldable pub decode_bytes : (skip : ℕ) → Text → Result Deny Text
decode_bytes skip [] = ok []
decode_bytes (suc skip) (c ∷ raw) = decode_bytes skip raw
decode_bytes zero (c ∷ raw) = elim (c == b'%') [
  | true ↦ do byte ← escape raw; out ← decode_bytes 2 raw; ok (byte ∷ out)
  | false ↦ do out ← decode_bytes 0 raw; ok (c ∷ out)
]

-- `percent_decode(path)`, then `String::from_utf8`.
unfoldable pub decode : Text → Result Deny Text
decode path = do bytes ← decode_bytes 0 (encode path); ok_or (from_utf8 bytes) malformed_uri

-- `segments.pop()`; the stack has its top at the head.
unfoldable pub pop : List Text → List Text
pop [] = []
pop (segment ∷ segments) = segments

-- One round of the loop of `resolve`.
unfoldable pub resolve_segment : List Text → Text → List Text
resolve_segment segments segment =
    if is_empty segment || text_eq segment (b'.' ∷ [])
    then segments
    else if text_eq segment (b'.' ∷ b'.' ∷ [])
    then pop segments
    else segment ∷ segments

unfoldable pub resolve_segments : List Text → List Text → List Text
resolve_segments segments [] = segments
resolve_segments segments (segment ∷ rest) =
    resolve_segments (resolve_segment segments segment) rest

-- The test for the trailing slash of `resolve`.
unfoldable pub ends_in_directory : Text → Bool
ends_in_directory path =
    ends_with (b'/' ∷ []) path
    || ends_with (b'/' ∷ b'.' ∷ []) path
    || ends_with (b'/' ∷ b'.' ∷ b'.' ∷ []) path

unfoldable pub is_nil : List Text → Bool
is_nil [] = true
is_nil (segment ∷ segments) = false

unfoldable pub resolve : Text → Text
resolve path =
    let segments = reverse (resolve_segments [] (split_on b'/' path)) in
    let out = b'/' ∷ join b'/' segments in
    if not (is_nil segments) && ends_in_directory path then out ++ b'/' ∷ [] else out

-- `decoded.replace('\\', "/")`
unfoldable pub slashes : Text → Text
slashes = map (λ c. if c == b'\\' then b'/' else c)

-- What `normalise` does to a path once it is decoded: two refusals, then the rewriting.
unfoldable pub clean : Text → Result Deny Text
clean decoded =
    if contains b'%' decoded
    then err malformed_uri
    else if any is_control decoded
    then err malformed_uri
    else ok (to_lower (resolve (slashes decoded)))

unfoldable pub normalise : Text → Result Deny Text
normalise raw_uri =
    let path = before b'?' raw_uri in
    if not (starts_with (b'/' ∷ []) path) || contains b'#' path
    then err malformed_uri
    else (do decoded ← decode path; clean decoded)

-- The path with every `;params` cut from its segment.
unfoldable pub unparametered : Text → Text
unparametered path = join b'/' (map (before b';') (split_on b'/' path))

-- The closure `decode` of `readings`.
unfoldable pub decode_resolved : Text → Result Deny Text
decode_resolved resolved = do out ← decode resolved; ok (to_lower out)

-- The array of three paths.
unfoldable pub readings : Text → Result Deny (List Text)
readings raw_uri = do
  decoded ← normalise raw_uri
  let path = before b'?' raw_uri
  resolved ← decode_resolved (resolve path)
  bare ← decode_resolved (resolve (unparametered path))
  ok (decoded ∷ resolved ∷ bare ∷ [])
