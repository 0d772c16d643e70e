-- ===== src/Cache/Cookie.antt =====
-- backend/src/cache.rs: the session cookie of a request (`session_cookie`) and the key of a cache
-- entry (`Key::new`).
use open_berat.Base.{
  ℕ, ◌+◌, Bool, true, false, ◌&&◌, not, List, [], ◌∷◌, Option, none, some, if◌then◌else◌, leb, ltb,
  Result, ok, err, Text, codes, is_empty, text_eq, all, split_on, split_once, strip_prefix, trim,
  ◌≡◌, ◌↔◌, arith, text_eq_iff,
}
use open_berat.Base.Assoc.{Eq}

abbrev pub cookie_name : Text
cookie_name = codes "_oauth2_proxy"

-- The error of `session_cookie`.
pub data Ambiguous : Type 0 where
  ambiguous : Ambiguous

is_digit : ℕ → Bool
is_digit c = leb b'0' c && leb c b'9'

-- Whether the name is that of a chunk of the session cookie, `_oauth2_proxy_<digits>`.
unfoldable pub is_chunk : Text → Bool
unfolding is_digit
is_chunk name = elim (strip_prefix cookie_name name) [
  | none ↦ false
  | some rest ↦ elim (strip_prefix (codes "_") rest) [
    | none ↦ false
    | some n ↦ not (is_empty n) && all is_digit n
  ]
]

-- One round of the loop: `found` and `seen` behind it.
unfoldable pub scan_cookie : Option Text → ℕ → Text → Option Text × ℕ
scan_cookie found seen cookie = elim (split_once b'=' cookie) [
  | none ↦ (found, seen)
  | some (name, value) ↦
      let trimmed = trim name in
      if text_eq trimmed cookie_name
      then (some value, seen + 1)
      else if is_chunk trimmed
      then (found, seen + 1)
      else (found, seen)
]

unfoldable pub scan_cookies : Option Text → ℕ → List Text → Option Text × ℕ
scan_cookies found seen [] = (found, seen)
scan_cookies found seen (cookie ∷ rest) =
    let (found', seen') = scan_cookie found seen cookie in scan_cookies found' seen' rest

-- `cookie_header.unwrap_or_default()`
abbrev or_empty : Option Text → Text
or_empty none = []
or_empty (some s) = s

unfoldable pub session_cookie : Option Text → Result Ambiguous (Option Text)
session_cookie cookie_header =
    let (found, seen) = scan_cookies none 0 (split_on b';' (or_empty cookie_header)) in
    if ltb 1 seen then err ambiguous else ok found

pub record Key : Type 0 where
  pub cookie : Text
  pub slug : Text

-- `Key::new`; `digest` is SHA-256.
unfoldable pub new_key : (digest : Text → Text) → Option Text → (slug : Text) → Option Key
new_key digest cookie_header slug = elim (session_cookie cookie_header) [
  | err ambiguous ↦ none
  | ok none ↦ none
  | ok (some value) ↦ some (record { cookie = digest value; slug = slug })
]

-- The derived equality of keys.
abbrev pub key_eq : Key → Key → Bool
key_eq j k = text_eq j.cookie k.cookie && text_eq j.slug k.slug

pub key_eq_iff : (j k : Key) → (key_eq j k ≡ true) ↔ (j ≡ k)
key_eq_iff j k = ground (arith, text_eq_iff j.cookie k.cookie, text_eq_iff j.slug k.slug)

instance abbrev pub key_Eq : Eq Key
key_Eq = record { beq = key_eq; beq_iff = key_eq_iff }
