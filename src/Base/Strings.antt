-- ===== src/Base/Strings.antt =====
-- Rust text. A `str` is the list of its characters (Unicode scalar values); a byte string is the
-- list of its bytes. These are the operations of the standard library that the backend calls.
use Prim.Native.Nat.{ℕ, zero, suc, ◌+◌, ◌/◌, ◌%◌}
use Prim.Native.Char.{code}
use Prim.Native.String.{String}
use mathlib.Core.Path.{◌≡◌, refl}
use mathlib.Core.Logic.{◌↔◌}
use mathlib.Core.Bool.{Bool, true, false, ◌&&◌, ◌||◌}
use mathlib.Core.List.{List, [], ◌∷◌, ◌++◌, map}
use mathlib.Core.Option.{Option, none, some}
use native.Mathlib.Omega.{arith}
use open_berat.Base.Logic.{ltb, leb, ◌==◌, if◌then◌else◌}
use open_berat.Base.Lists.{any}

abbrev pub Text : Type 0
Text = List ℕ

-- The characters of a literal.
abbrev pub codes : String → Text
codes String.[] = []
codes (String.◌∷◌ c s) = code c ∷ codes s

abbrev pub is_empty : Text → Bool
is_empty [] = true
is_empty (c ∷ s) = false

abbrev pub text_eq : Text → Text → Bool
text_eq [] [] = true
text_eq [] (d ∷ t) = false
text_eq (c ∷ s) [] = false
text_eq (c ∷ s) (d ∷ t) = c == d && text_eq s t

pub text_eq_refl : (s : Text) → text_eq s s ≡ true
text_eq_refl [] = refl
text_eq_refl (c ∷ s) = ground (arith, text_eq_refl s)

pub text_eq_sound : (s t : Text) → text_eq s t ≡ true → s ≡ t
text_eq_sound [] [] h = refl
text_eq_sound [] (d ∷ t) h = absurd (ground arith)
text_eq_sound (c ∷ s) [] h = absurd (ground arith)
text_eq_sound (c ∷ s) (d ∷ t) h = ground (arith, text_eq_sound s t)

pub text_eq_iff : (s t : Text) → (text_eq s t ≡ true) ↔ (s ≡ t)
text_eq_iff s t = (text_eq_sound s t, λ e. subst_eq e)
  where
    subst_eq : s ≡ t → text_eq s t ≡ true
    subst_eq e = rw (← e) (text_eq_refl s)

-- `s.contains(c)`
abbrev pub contains : ℕ → Text → Bool
contains c = any (λ d. d == c)

-- `s.split(p)`: the pieces between the separators, one more than there are separators.
abbrev pub push_front : ℕ → List Text → List Text
push_front c [] = (c ∷ []) ∷ []
push_front c (p ∷ ps) = (c ∷ p) ∷ ps

unfoldable pub split : (ℕ → Bool) → Text → List Text
split p [] = [] ∷ []
split p (c ∷ s) = let rest = split p s in if p c then [] ∷ rest else push_front c rest

abbrev pub split_on : ℕ → Text → List Text
split_on c = split (λ d. d == c)

-- `s.split(c).next().unwrap_or_default()`: all that stands before the first `c`.
unfoldable pub before : ℕ → Text → Text
before c [] = []
before c (d ∷ s) = let rest = before c s in if d == c then [] else d ∷ rest

-- `s.split_once(c)`
unfoldable pub split_once : ℕ → Text → Option (Text × Text)
split_once c [] = none
split_once c (d ∷ s) =
    let rest = split_once c s in
    if d == c then some ([], s) else elim rest [ none ↦ none | some (a, b) ↦ some (d ∷ a, b) ]

-- `pieces.join("/")`, the separator one character.
unfoldable pub join : ℕ → List Text → Text
join c [] = []
join c (p ∷ []) = p
join c (p ∷ q ∷ ps) = p ++ c ∷ join c (q ∷ ps)

-- `s.strip_prefix(p)`
unfoldable pub strip_prefix : Text → Text → Option Text
strip_prefix [] s = some s
strip_prefix (c ∷ p) [] = none
strip_prefix (c ∷ p) (d ∷ s) = if c == d then strip_prefix p s else none

unfoldable pub starts_with : Text → Text → Bool
starts_with [] s = true
starts_with (c ∷ p) [] = false
starts_with (c ∷ p) (d ∷ s) = c == d && starts_with p s

-- `s.ends_with(p)`
unfoldable pub ends_with : Text → Text → Bool
ends_with p [] = is_empty p
ends_with p (c ∷ s) = text_eq p (c ∷ s) || ends_with p s

-- `s.trim_end_matches(p)` and `s.trim_start_matches(p)`, the pattern a set of characters.
unfoldable pub trim_end : (ℕ → Bool) → Text → Text
trim_end p [] = []
trim_end p (c ∷ s) = let rest = trim_end p s in if p c && is_empty rest then [] else c ∷ rest

unfoldable pub trim_start : (ℕ → Bool) → Text → Text
trim_start p [] = []
trim_start p (c ∷ s) = if p c then trim_start p s else c ∷ s

-- `char::is_whitespace`: the characters with the Unicode property White_Space.
unfoldable pub is_whitespace : ℕ → Bool
is_whitespace c =
    (leb 0x9 c && leb c 0xd)
    || c == 0x20
    || c == 0x85
    || c == 0xa0
    || c == 0x1680
    || (leb 0x2000 c && leb c 0x200a)
    || c == 0x2028
    || c == 0x2029
    || c == 0x202f
    || c == 0x205f
    || c == 0x3000

-- `s.trim()`
unfoldable pub trim : Text → Text
trim s = trim_end is_whitespace (trim_start is_whitespace s)

-- `char::is_control`: the general category Cc.
unfoldable pub is_control : ℕ → Bool
is_control c = leb c 0x1f || (leb 0x7f c && leb c 0x9f)

-- `make_ascii_lowercase`
abbrev pub lower : ℕ → ℕ
lower c = if leb b'A' c && leb c b'Z' then c + 32 else c

abbrev pub to_lower : Text → Text
to_lower = map lower

pub to_lower_idem : (s : Text) → to_lower (to_lower s) ≡ to_lower s
to_lower_idem [] = refl
to_lower_idem (c ∷ s) = ground (arith, to_lower_idem s)

-- `to_string` of an unsigned number, in front of a text; the fuel is a bound on its digits.
unfoldable pub digits : (fuel : ℕ) → ℕ → Text → Text
digits zero n s = s
digits (suc fuel) n s =
    if ltb n 10 then (b'0' + n) ∷ s else digits fuel (n / 10) ((b'0' + n % 10) ∷ s)
