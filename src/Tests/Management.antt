-- ===== src/Tests/Management.antt =====
-- The management plane and the generated configuration at concrete inputs.
use open_berat.Base.{
  true, false, [], ◌∷◌, ◌++◌, ◌==◌, Option, none, some, ◌≡◌, ◌≢◌, ◌↔◌, ◌⊎◌, inl, refl, ok, Text,
  codes, In, to_lower, split, before, join, strip_prefix, starts_with, ends_with, trim_end,
  trim_start, is_whitespace, trim, is_control,
}
use open_berat.Base.Utf8.{encode_char, encode, lead, finish, continue, decode_from, from_utf8}
use open_berat.Policy.Uri.{
  to_digit, escape, decode_bytes, decode, pop, resolve_segment, resolve_segments, ends_in_directory,
  is_nil, resolve, slashes, clean, normalise,
}
use open_berat.Policy.Groups.{in_group, may_reset_second_factor}
use open_berat.Session.Logout.{Caller, caller_from, group_names}
use open_berat.Validate.Fields.{
  domain, Url, labelled, validate_slug, portal_host, check_hostname, validate_hostname,
  validate_name, kept_icon, validate_icon,
}
use open_berat.Validate.Shape.{accepts, validate_slug-accepts_iff, validate_hostname-ok}
use open_berat.Validate.Pattern.{without_star, validate_path_pattern}
use open_berat.Validate.Living.{granted, validate_path_pattern-granted}
use open_berat.Policy.Types.{Decision}
use open_berat.Policy.Uri.{readings}
use open_berat.Policy.Rules.{base, decide}
use open_berat.Validate.Upstream.{check_host, check_url, validate_upstream}
use open_berat.Nginx.Render.{check_row, upstream_of, render_row, renderable}
use open_berat.Admin.Guard.{other, next, guard, MayPass, guard-next_iff}
use open_berat.Admin.Reset.{
  Target, found, Keycloak, reset_target, reset_second_factor, reset_second_factor-deletes,
}
use open_berat.Admin.Applications.{create_application, checked_patch, update_row}
use open_berat.Admin.Entitlements.{create_entitlement}
use open_berat.Tests.{headers}

-- All that the runs below compute with.
unfoldable pub program : Unit {0}
unfolding split before join strip_prefix starts_with ends_with trim_end trim_start is_whitespace
    trim is_control encode_char encode lead finish continue decode_from from_utf8 to_digit escape
    decode_bytes decode pop resolve_segment resolve_segments ends_in_directory is_nil resolve
    slashes clean normalise labelled validate_slug portal_host check_hostname validate_hostname
    validate_name kept_icon validate_icon without_star validate_path_pattern check_host check_url
    validate_upstream check_row upstream_of render_row renderable reset_target reset_second_factor
    caller_from group_names in_group may_reset_second_factor create_application checked_patch
    update_row create_entitlement
program = tt

guard-next_iff_example :
    (guard (codes "admins") (codes "audit") (codes "https://portal.example") headers other ≡ next)
    ↔ ((caller : Caller) × (caller_from headers ≡ some caller)
        × MayPass
            (codes "admins")
            (codes "audit")
            (codes "https://portal.example")
            headers
            other
            caller)
guard-next_iff_example =
    guard-next_iff (codes "admins") (codes "audit") (codes "https://portal.example") headers other

abbrev keycloak : Keycloak
keycloak = record {
  target = λ name. found (record { id = codes "u9"; groups = codes "staff" ∷ [] });
  delete_otp = λ id. ok 1;
}

deletes_one :
    (reset_second_factor keycloak (codes "admins") [] headers (codes " bob ")).0 ≡ codes "u9" ∷ []
unfolding program
deletes_one = refl

deletes_it :
    In (codes "u9") (reset_second_factor keycloak (codes "admins") [] headers (codes " bob ")).0
unfolding program
deletes_it = inl refl

reset_second_factor-deletes_example :
    (caller : Caller) × (target : Target) × (caller_from headers ≡ some caller)
    × (keycloak.target (trim (codes " bob ")) ≡ found target)
    × (target.id ≡ codes "u9")
    × (to_lower caller.sub ≢ target.id)
    × (in_group target.groups (codes "admins") ≡ false)
    × (in_group target.groups [] ≡ false)
reset_second_factor-deletes_example =
    reset_second_factor-deletes keycloak (codes "admins") [] headers (codes " bob ") (codes "u9")
      deletes_it

validate_slug-accepts_iff_example :
    (validate_slug (codes "wiki-2") ≡ ok tt) ↔ (accepts (b'-' ∷ []) true (codes "wiki-2") ≡ true)
validate_slug-accepts_iff_example = validate_slug-accepts_iff (codes "wiki-2")

-- A parser that knows one URL.
abbrev pub parse : Text → Option Url
parse s = some (record {
  scheme = codes "http";
  username = [];
  password = none;
  host = some (domain (codes "wiki-app"));
  host_str = some (codes "wiki-app");
  port = some 8080;
  port_or_known_default = some 8080;
  path = codes "/";
  query = none;
  fragment = none;
})

abbrev pub origin : Text
origin = codes "https://portal.example"

hostname_passes : validate_hostname parse (codes "Wiki.example") origin ≡ ok (codes "wiki.example")
unfolding program
hostname_passes = refl

validate_hostname-ok_example :
    (codes "wiki.example" ≡ to_lower (codes "Wiki.example"))
    × (accepts (b'.' ∷ b'-' ∷ []) true (codes "wiki.example") ≡ true)
    × (before b'.' (codes "wiki.example") ≢ codes "portal")
    × (before b'.' (codes "wiki.example") ≢ codes "auth")
    × (portal_host parse origin ≢ some (codes "wiki.example"))
validate_hostname-ok_example =
    validate_hostname-ok parse (codes "Wiki.example") origin (codes "wiki.example") hostname_passes

pattern_passes : validate_path_pattern (codes "/admin/*") ≡ ok tt
unfolding program
pattern_passes = refl

validate_path_pattern-granted_example :
    (codes "/admin/*" ≡ [])
    ⊎ ((path : Text) × (codes "/admin/*" ≡ path ++ codes "*")
        × (readings path ≡ ok (path ∷ path ∷ path ∷ []))
        × (base (codes "/admin/*") ≡ trim_end (λ c. c == b'/') path)
        × (decide true (granted (codes "/admin/*") ∷ []) path 5 ≡ Decision.allow))
validate_path_pattern-granted_example =
    validate_path_pattern-granted (codes "/admin/*") 5
      (refl, (refl, (refl, (refl, (refl, (refl, (refl, (refl, tt)))))))) refl refl pattern_passes
