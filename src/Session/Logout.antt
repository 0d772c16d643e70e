-- ===== src/Session/Logout.antt =====
-- backend/src/portal.rs: `logout`, the caller's own kill switch; with it the guard `from_portal` and
-- the caller's identity `Caller::from` of backend/src/api.rs. At each wait the
-- other handlers of the instance may change the cache.
pub mod Steps
use open_berat.Base.{
  ℕ, Bool, true, false, List, [], ◌∷◌, ◌++◌, if◌then◌else◌, Text, text_eq, codes, is_empty, not,
  filter, split_on, Option, none, some, Result, ok, err,
}
use open_berat.Cache.Cookie.{session_cookie, cookie_name}
use open_berat.Cache.Types.{Externals, Cache}
use open_berat.Cache.Ops.{drop_sub}
use open_berat.Session.Ticket.{Base64, session_key}
use open_berat.Session.World.{
  Call, sign_out, publish, srem, Services, World, Others, waited, drop_sessions,
}

-- The headers that the handlers read, each where it is present and readable (`to_str`). A cookie may
-- also be present and not readable.
pub record Headers : Type 0 where
  pub subject : Option Text
  pub username : Option Text
  pub email : Option Text
  pub groups : Option Text
  pub origin : Option Text
  pub has_cookie : Bool
  pub cookie : Option Text

abbrev pub or_default : Option Text → Text
or_default none = []
or_default (some s) = s

pub record Caller : Type 0 where
  pub sub : Text
  pub username : Text
  pub email : Text
  pub groups : List Text

-- The names of a comma-joined header, the empty ones left out.
unfoldable pub group_names : Text → List Text
group_names header = filter (λ g. not (is_empty g)) (split_on b',' header)

-- `Caller::from`
unfoldable pub caller_from : Headers → Option Caller
caller_from headers =
    let sub = or_default headers.subject in
    if is_empty sub
    then none
    else some (record {
      sub = sub;
      username = or_default headers.username;
      email = or_default headers.email;
      groups = group_names (or_default headers.groups);
    })

-- `from_portal`
unfoldable pub from_portal : Headers → (portal_origin : Text) → Bool
from_portal headers portal_origin = elim headers.origin [
  | none ↦ false
  | some origin ↦ text_eq origin portal_origin
]

-- `cache::session_cookie(..).ok().flatten().and_then(session_key)`
unfoldable pub derived_key : Base64 → Option Text → Option Text
derived_key engine cookie = elim (session_cookie cookie) [
  | err e ↦ none
  | ok none ↦ none
  | ok (some value) ↦ session_key engine value cookie_name
]

pub data Step : Type 0 where
  oauth2_proxy_sign_out delete_session publish_invalidation forget_index_entry : Step

pub data Answer : Type 0 where
  no_content unauthorized forbidden service_unavailable : Answer
  failed : Step → Answer

module _ (services : Services) (others : Others) (x : Externals) (full : ℕ → Bool)
    (sub key : Text) where
  unfoldable pub logout_index : World → World × Answer
  logout_index w =
      if services.succeeds w.calls (srem sub key)
      then (waited others (srem sub key) w, no_content)
      else (waited others (srem sub key) w, failed forget_index_entry)

  unfoldable pub logout_cache : World → World × Answer
  logout_cache w =
      let published = services.succeeds w.calls (publish sub) in
      let sent = waited others (publish sub) w in
      let dropped : World = record sent { cache = drop_sub x full sub sent.cache } in
      if published then logout_index dropped else (dropped, failed publish_invalidation)

  unfoldable pub logout_session : World → World × Answer
  logout_session w =
      let (w', deleted) = drop_sessions services others (key ∷ []) w in
      if deleted then logout_cache w' else (w', failed delete_session)

  -- A success or a redirection of `/oauth2/sign_out` is a success.
  unfoldable pub logout_steps : World → World × Answer
  logout_steps w =
      if services.succeeds w.calls sign_out
      then logout_session (waited others sign_out w)
      else (waited others sign_out w, failed oauth2_proxy_sign_out)

unfoldable pub logout :
    Services
    → Others
    → Externals
    → Base64
    → (full : ℕ → Bool) → (portal_origin : Text) → Headers
    → World
    → World × Answer
logout services others x engine full portal_origin headers w = elim (caller_from headers) [
  | none ↦ (w, unauthorized)
  | some caller ↦
      if not (from_portal headers portal_origin)
      then (w, forbidden)
      else if not headers.has_cookie
      then (w, service_unavailable)
      else elim (derived_key engine headers.cookie) [
        | none ↦ (w, service_unavailable)
        | some key ↦ logout_steps services others x full caller.sub key w
      ]
]
