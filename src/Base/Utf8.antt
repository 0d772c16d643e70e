-- ===== src/Base/Utf8.antt =====
-- UTF-8, as `str::as_bytes` and `String::from_utf8` of the standard library have it.
use mathlib.Core.Option
use Prim.Native.Nat.{ℕ, zero, suc, ◌+◌, ◌-◌, ◌*◌, ◌/◌, ◌%◌}
use mathlib.Core.Path.{◌≡◌, refl}
use mathlib.Core.Bool.{true, ◌&&◌, ◌||◌}
use mathlib.Core.List.{[], ◌∷◌, ◌++◌}
use mathlib.Core.Option.{Option, none, some}
use native.Mathlib.Omega.{arith}
use open_berat.Base.Logic.{ltb, leb, if◌then◌else◌}
use open_berat.Base.Lists.{All}
use open_berat.Base.Strings.{Text}

-- A Rust `char`: a code point that is no surrogate.
abbrev pub IsScalar : ℕ → Type 0
IsScalar c = (ltb c 0xd800 || (leb 0xe000 c && ltb c 0x110000)) ≡ true

-- The bytes of one character.
unfoldable pub encode_char : ℕ → Text
encode_char c =
    if ltb c 0x80
    then c ∷ []
    else if ltb c 0x800
    then (0xc0 + c / 64) ∷ (0x80 + c % 64) ∷ []
    else if ltb c 0x10000
    then (0xe0 + c / 4096) ∷ (0x80 + c / 64 % 64) ∷ (0x80 + c % 64) ∷ []
    else (0xf0 + c / 262144) ∷ (0x80 + c / 4096 % 64) ∷ (0x80 + c / 64 % 64) ∷ (0x80 + c % 64) ∷ []

-- `s.as_bytes()`
unfoldable pub encode : Text → Text
encode [] = []
encode (c ∷ s) = encode_char c ++ encode s

-- Where the decoder stands after a byte: a character is complete, `left` continuation bytes are
-- wanted for one that is at least `low`, or the bytes are no UTF-8.
pub data Step : Type 0 where
  emit : ℕ → Step
  more : (left acc low : ℕ) → Step
  bad : Step

unfoldable pub lead : ℕ → Step
lead b =
    if ltb b 0x80
    then emit b
    else if ltb b 0xc2
    then bad
    else if ltb b 0xe0
    then more 1 (b - 0xc0) 0x80
    else if ltb b 0xf0
    then more 2 (b - 0xe0) 0x800
    else if ltb b 0xf5
    then more 3 (b - 0xf0) 0x10000
    else bad

unfoldable pub finish : (acc low : ℕ) → Step
finish acc low =
    if leb low acc && (ltb acc 0xd800 || (leb 0xe000 acc && ltb acc 0x110000))
    then emit acc
    else bad

unfoldable pub continue : (left acc low b : ℕ) → Step
continue zero acc low b = lead b
continue (suc zero) acc low b =
    if leb 0x80 b && ltb b 0xc0 then finish (acc * 64 + (b - 0x80)) low else bad
continue (suc (suc left)) acc low b =
    if leb 0x80 b && ltb b 0xc0 then more (suc left) (acc * 64 + (b - 0x80)) low else bad

unfoldable pub decode_from : (left acc low : ℕ) → Text → Option Text
decode_from zero acc low [] = some []
decode_from (suc left) acc low [] = none
decode_from left acc low (b ∷ s) = elim (continue left acc low b) [
  | emit c ↦ Option.map (λ t. c ∷ t) (decode_from 0 0 0 s)
  | more left' acc' low' ↦ decode_from left' acc' low' s
  | bad ↦ none
]

-- `String::from_utf8`, the error dropped.
unfoldable pub from_utf8 : Text → Option Text
from_utf8 = decode_from 0 0 0

-- What is encoded decodes to itself, whatever follows.
decode-encode_char :
    (c : ℕ) (s : Text)
    → IsScalar c
    → from_utf8 (encode_char c ++ s) ≡ Option.map (λ t. c ∷ t) (from_utf8 s)
unfolding from_utf8 encode_char decode_from continue lead finish
decode-encode_char c s h = ground arith

abbrev pub IsText : Text → Type 0
IsText = All IsScalar

pub from_utf8-encode : (s : Text) → IsText s → from_utf8 (encode s) ≡ some s
unfolding encode
from_utf8-encode [] h = unfold from_utf8 decode_from in refl
from_utf8-encode (c ∷ s) (h, hs) = rw (decode-encode_char c (encode s) h, from_utf8-encode s hs)
