-- ===== src/Validate/Upstream.antt =====
-- backend/src/validate.rs: the upstream of an application (`validate_upstream`, `reject_reserved`).
use open_berat.Base.{
  ℕ, ◌/◌, Bool, true, false, ◌&&◌, ◌||◌, not, List, [], ◌∷◌, Option, none, some, if◌then◌else◌, leb,
  ◌==◌, Result, ok, err, Text, codes, is_empty, text_eq, any, In, to_lower, ◌≡◌, ◌≢◌,
}
use open_berat.Validate.Fields.{Host, domain, ipv4, ipv6, Url, labelled}
use open_berat.Validate.Shape.{accepts}

-- The tests of the standard library on an address, each as its documentation has it.
abbrev is_reserved_v4 : (a b c d : ℕ) → Bool
is_reserved_v4 a b c d =
    (a == 127)
    || (a == 169 && b == 254)
    || (a == 0 && b == 0 && c == 0 && d == 0)
    || (leb 224 a && leb a 239)

abbrev pub is_unspecified_v6 : List ℕ → Bool
is_unspecified_v6 [] = true
is_unspecified_v6 (s ∷ ss) = s == 0 && is_unspecified_v6 ss

abbrev pub is_loopback_v6 : List ℕ → Bool
is_loopback_v6 [] = false
is_loopback_v6 (s ∷ []) = s == 1
is_loopback_v6 (s ∷ t ∷ ss) = s == 0 && is_loopback_v6 (t ∷ ss)

abbrev first_segment : List ℕ → ℕ
first_segment [] = 0
first_segment (s ∷ ss) = s

abbrev is_reserved_v6 : List ℕ → Bool
is_reserved_v6 segments =
    is_loopback_v6 segments
    || is_unspecified_v6 segments
    || first_segment segments / 256 == 0xff
    || first_segment segments / 64 == 0x3fa

abbrev pub is_reserved : Host → Bool
is_reserved (domain name) = false
is_reserved (ipv4 a b c d) = is_reserved_v4 a b c d
is_reserved (ipv6 segments) = is_reserved_v6 segments

unfoldable pub reject_reserved : Host → Result Text (Unit {0})
reject_reserved ip =
    if is_reserved ip
    then err (codes "upstream_url names a loopback, link-local or multicast address")
    else ok tt

abbrev pub infrastructure_ports : List ℕ
infrastructure_ports = 5432 ∷ 6379 ∷ 389 ∷ 636 ∷ 3268 ∷ 3269 ∷ []

abbrev pub infrastructure_names : List Text
infrastructure_names =
    codes "localhost"
    ∷ codes "postgres"
    ∷ codes "redis"
    ∷ codes "keycloak"
    ∷ codes "backend"
    ∷ codes "oauth2-proxy"
    ∷ codes "nginx"
    ∷ codes "samba-ad"
    ∷ codes "dc01"
    ∷ []

-- The check of the host.
unfoldable pub check_host : Host → Result Text (Unit {0})
check_host (domain raw) =
    let name = to_lower raw in
    if not (labelled name (b'.' ∷ b'-' ∷ []))
    then err (codes "upstream_url host may hold only letters, digits, '.' and '-'")
    else if any (λ n. text_eq n name) infrastructure_names
    then err (codes "upstream_url names an infrastructure service")
    else ok tt
check_host (ipv4 a b c d) = reject_reserved (ipv4 a b c d)
check_host (ipv6 segments) = reject_reserved (ipv6 segments)

abbrev pub is_some : Option Text → Bool
is_some none = false
is_some (some s) = true

abbrev pub is_infrastructure_port : Option ℕ → Bool
is_infrastructure_port none = false
is_infrastructure_port (some port) = any (λ p. p == port) infrastructure_ports

-- The checks on the parsed URL, in their order.
unfoldable pub check_url : Url → Result Text (Unit {0})
check_url url =
    if not (text_eq url.scheme (codes "http") || text_eq url.scheme (codes "https"))
    then err (codes "upstream_url must be http or https")
    else if not (is_empty url.username) || is_some url.password
    then err (codes "upstream_url must not carry credentials")
    else if not (is_empty url.path || text_eq url.path (codes "/"))
        || is_some url.query
        || is_some url.fragment
    then err (codes "upstream_url must be scheme://host:port with no path")
    else if is_infrastructure_port url.port
    then err (codes "upstream_url names an infrastructure port")
    else elim url.host [
      | none ↦ err (codes "upstream_url has no host")
      | some host ↦ check_host host
    ]

unfoldable pub validate_upstream : (parse : Text → Option Url) → Text → Result Text (Unit {0})
validate_upstream parse raw = elim (parse raw) [
  | none ↦ err (codes "upstream_url is not a URL")
  | some url ↦ check_url url
]

-- What may stand behind the proxy: a name of plain labels that no service of the infrastructure has, or
-- an address that is neither loopback, unspecified, link-local nor multicast.
abbrev pub IsUpstreamHost : Host → Type 0
IsUpstreamHost (domain raw) =
    (accepts (b'.' ∷ b'-' ∷ []) true (to_lower raw) ≡ true)
    × ((n : Text) → In n infrastructure_names → to_lower raw ≢ n)
IsUpstreamHost (ipv4 a b c d) = is_reserved (ipv4 a b c d) ≡ false
IsUpstreamHost (ipv6 segments) = is_reserved (ipv6 segments) ≡ false
