-- ===== src/Validate/Fields.antt =====
-- backend/src/validate.rs: slug, hostname, name and icon. The texts of the refusals are kept; a length
-- is a number of characters.
use open_berat.Base.{
  ℕ, Bool, false, ◌&&◌, ◌||◌, not, List, [], ◌∷◌, Option, none, some, if◌then◌else◌, leb, ltb, ◌==◌,
  length, Result, ok, err, Text, codes, is_empty, text_eq, any, all, split, before, trim, to_lower,
}

-- A URL as the `url` crate parses it. The numbers of a host are its octets or its segments.
pub data Host : Type 0 where
  domain : Text → Host
  ipv4 : (a b c d : ℕ) → Host
  ipv6 : (segments : List ℕ) → Host

pub record Url : Type 0 where
  pub scheme : Text
  pub username : Text
  pub password : Option Text
  pub host : Option Host
  pub host_str : Option Text
  pub port : Option ℕ
  pub port_or_known_default : Option ℕ
  pub path : Text
  pub query : Option Text
  pub fragment : Option Text

-- `is_ascii_lowercase() || is_ascii_digit()`: no byte of a character past ASCII is one.
abbrev pub is_alphanumeric : ℕ → Bool
is_alphanumeric c = (leb b'a' c && leb c b'z') || (leb b'0' c && leb c b'9')

-- `separators.contains(&c)`
abbrev pub separates : List ℕ → ℕ → Bool
separates separators c = any (λ d. d == c) separators

abbrev pub is_label : Text → Bool
is_label label = not (is_empty label) && all is_alphanumeric label

unfoldable pub labelled : Text → (separators : List ℕ) → Bool
labelled value separators =
    not (is_empty value) && all is_label (split (separates separators) value)

unfoldable pub validate_slug : Text → Result Text (Unit {0})
validate_slug slug =
    if labelled slug (b'-' ∷ [])
    then ok tt
    else err (codes "slug must be lower-case letters and digits, separated by single hyphens")

-- The portal's own hostname, in lower case; `parse` is the parser of the `url` crate.
unfoldable pub portal_host : (parse : Text → Option Url) → (portal_origin : Text) → Option Text
portal_host parse portal_origin = elim (parse portal_origin) [
  | none ↦ none
  | some url ↦ elim url.host_str [ none ↦ none | some host ↦ some (to_lower host) ]
]

abbrev pub is_some_and : (Text → Bool) → Option Text → Bool
is_some_and p none = false
is_some_and p (some s) = p s

abbrev pub reserved_names : List Text
reserved_names = codes "portal" ∷ codes "auth" ∷ []

-- The checks of a hostname that is in lower case.
unfoldable pub check_hostname :
    (parse : Text → Option Url) → (hostname portal_origin : Text) → Result Text Text
check_hostname parse hostname portal_origin =
    let first = before b'.' hostname in
    if not (labelled hostname (b'.' ∷ b'-' ∷ []))
    then err (
        codes
          "external_hostname must be lower-case letters and digits, separated by single dots or hyphens")
    else if any (λ name. text_eq name first) reserved_names
    then err (codes "external_hostname uses a reserved name (portal, auth)")
    else if is_some_and (λ portal. text_eq portal hostname) (portal_host parse portal_origin)
    then err (codes "external_hostname is the portal's own hostname")
    else ok hostname

unfoldable pub validate_hostname :
    (parse : Text → Option Url) → (hostname portal_origin : Text) → Result Text Text
validate_hostname parse hostname portal_origin =
    check_hostname parse (to_lower hostname) portal_origin

abbrev pub label_max : ℕ
label_max = 200

unfoldable pub validate_name : Text → Result Text Text
validate_name raw =
    let name = trim raw in
    if is_empty name
    then err (codes "name is required")
    else if ltb label_max (length name)
    then err (codes "name is at most 200 characters")
    else ok name

-- `raw.map(str::trim).filter(|icon| !icon.is_empty())`
unfoldable pub kept_icon : Option Text → Option Text
kept_icon none = none
kept_icon (some raw) = let icon = trim raw in if is_empty icon then none else some icon

unfoldable pub validate_icon : Option Text → Result Text (Option Text)
validate_icon raw =
    let icon = kept_icon raw in
    if is_some_and (λ i. ltb label_max (length i)) icon
    then err (codes "icon is at most 200 characters")
    else ok icon
