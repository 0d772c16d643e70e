-- ===== src/Decide/Request.antt =====
-- backend/src/decide.rs: the request and the answer, `authenticate` on the response of oauth2-proxy,
-- and `load` on the answer of the query (`store::rules_for`, backend/src/store.rs).
use open_berat.Base.{
  ℕ, Bool, true, false, ◌&&◌, List, [], ◌∷◌, Option, none, some, if◌then◌else◌, leb, ltb, ◌==◌,
  Text, codes, is_empty, text_eq, any, not, map, take, before, Result, ok, err,
}
use open_berat.Policy.Types.{Instant, Rule, Effect, Deny}
use open_berat.Store.Channel.{Uuid, IpAddr}
use open_berat.Cache.Types.{Externals, Identity, Cached}
use open_berat.Cache.Cookie.{Key, new_key}
use open_berat.Session.Logout.{or_default, group_names}

-- A header map: the fields in order, their names in lower case, as the `http` crate keeps them.
abbrev pub HeaderMap : Type 0
HeaderMap = List (Text × Text)

-- `headers.get(name)`: the first field of the name.
unfoldable pub header : (name : Text) → HeaderMap → Option Text
header name [] = none
header name ((n, value) ∷ fields) = if text_eq n name then some value else header name fields

-- `headers.get_all(name)`
unfoldable pub headers_all : (name : Text) → HeaderMap → List Text
headers_all name [] = []
headers_all name ((n, value) ∷ fields) =
    let rest = headers_all name fields in if text_eq n name then value ∷ rest else rest

-- `contains_key`
abbrev is_present : HeaderMap → Text → Bool
is_present headers name = elim (header name headers) [ none ↦ false | some v ↦ true ]

-- A field that is present and readable (`and_then(|v| v.to_str().ok())`).
unfoldable pub header_str : Externals → HeaderMap → (name : Text) → Option Text
header_str x headers name = elim (header name headers) [ none ↦ none | some v ↦ x.to_str v ]

pub record Subrequest : Type 0 where
  pub key : Option Key
  pub slug : Text
  pub uri : Text
  pub audit_path : Text
  pub src_ip : Option IpAddr
  pub request_id : Option Text

abbrev audit_path_limit : ℕ
audit_path_limit = 512

abbrev bound_address : (Text → Option IpAddr) → Option Text → Option IpAddr
bound_address parse none = none
bound_address parse (some s) = parse s

-- `parse` reads an address (`IpAddr::from_str`).
unfoldable pub subrequest :
    Externals → (parse : Text → Option IpAddr) → HeaderMap → (slug uri : Text) → Subrequest
subrequest x parse headers slug uri = record {
  key = new_key x.digest (header_str x headers (codes "cookie")) slug;
  slug = slug;
  uri = uri;
  audit_path = take audit_path_limit (before b'?' uri);
  src_ip = bound_address parse (header_str x headers (codes "x-real-ip"));
  request_id = header_str x headers (codes "x-request-id");
}

-- The fields that the nginx include always writes, besides the slug and the URI.
unfoldable pub lacks_context : HeaderMap → Bool
lacks_context headers =
    any (λ name. not (is_present headers name))
      (codes "x-original-method" ∷ codes "x-real-ip" ∷ codes "x-request-id" ∷ [])

-- A response of oauth2-proxy.
pub record AuthResponse : Type 0 where
  pub status : ℕ
  pub fields : HeaderMap

pub data Authentication : Type 0 where
  verified : Identity → (set_cookie : List Text) → Authentication
  anonymous unavailable : Authentication

-- `value(name)`
unfoldable pub value_of : HeaderMap → Text → Text
value_of fields name = or_default (header name fields)

-- `authenticate` behind the request: `none` is a failed or late one.
unfoldable pub authenticate : Option AuthResponse → Authentication
authenticate none = unavailable
authenticate (some response) =
    let user = header (codes "x-auth-request-user") response.fields in
    if response.status == 401
    then anonymous
    else if not (leb 200 response.status && ltb response.status 300)
    then unavailable
    else elim user [
      | none ↦ unavailable
      | some sub ↦
          if is_empty sub
          then unavailable
          else verified
              (record {
                sub = sub;
                username = value_of response.fields (codes "x-auth-request-preferred-username");
                email = value_of response.fields (codes "x-auth-request-email");
                groups = value_of response.fields (codes "x-auth-request-groups");
              })
              (headers_all (codes "set-cookie") response.fields)
    ]

-- `store::AppRules`, and the row of a rule: its effect, pattern and expiry.
pub record AppRules : Type 0 where
  pub id : Uuid
  pub enabled : Bool
  pub rules : List Rule

unfoldable pub effect_of : Text → Effect
effect_of effect = if text_eq effect (codes "deny") then Effect.deny else Effect.allow

-- What `rules_for` makes of the two queries: the row of the application, and the rows of its rules.
unfoldable pub rules_of :
    Option (Uuid × Bool) → List (Text × Text × Option Instant) → Option AppRules
rules_of none rows = none
rules_of (some (id, enabled)) rows = some (record {
  id = id;
  enabled = enabled;
  rules =
      map
        (λ (effect, path_pattern, expires_at). record {
          effect = effect_of effect;
          path_pattern = path_pattern;
          expires_at = expires_at;
        })
        rows;
})

-- The groups that `load` asks for.
unfoldable pub groups_of : Externals → Identity → List Text
groups_of x identity = group_names (or_default (x.to_str identity.groups))

-- `load` behind the query: an error or a late answer is `none`.
unfoldable pub load : Identity → Option (Option AppRules) → Result Deny Cached
load identity none = err Deny.store_unavailable
load identity (some (some app)) = ok (record {
  identity = identity;
  rules = app.rules;
  enabled = app.enabled;
  application_id = some app.id;
})
load identity (some none) =
    ok (record { identity = identity; rules = []; enabled = false; application_id = none })
