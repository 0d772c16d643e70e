-- ===== src/Session/World.antt =====
-- The services that the handlers call (Keycloak, oauth2-proxy, Redis), and the state of a handler:
-- the calls made so far and the decision cache of this instance. `backend/src/session.rs` (`Index`)
-- and `backend/src/keycloak.rs` wrap the calls.
use open_berat.Base.{Bool, true, List, [], ◌∷◌, ◌++◌, Option, Text}
use open_berat.Cache.Types.{Cache}

-- `Index::{record, sessions, drop_sessions, publish_invalidation, forget, forget_session}`,
-- `Keycloak::logout_all`, the requests to `/oauth2/sign_out` and `/oauth2/auth`, and the query
-- `store::rules_for`.
pub data Call : Type 0 where
  logout_all : (sub : Text) → Call
  sign_out : Call
  sadd : (sub key : Text) → Call
  smembers : (sub : Text) → Call
  del_sessions : (keys : List Text) → Call
  publish : (sub : Text) → Call
  del_index : (sub : Text) → Call
  srem : (sub key : Text) → Call
  oauth2_auth : (cookie : Option Text) → Call
  rules_for : (slug sub : Text) (groups : List Text) → Call

-- What `Keycloak::logout_all` answers.
pub data Logout : Type 0 where
  done no_such_user failed : Logout

-- The services are any functions of the calls made before: whether a call succeeds, and what the two
-- calls with an answer of their own return.
pub record Services : Type 0 where
  pub succeeds : List Call → Call → Bool
  pub logout : List Call → (sub : Text) → Logout
  pub members : List Call → (sub : Text) → List Text

pub record World : Type 0 where
  pub calls : List Call
  pub cache : Cache

abbrev pub after : Call → World → World
after call w = record w { calls = w.calls ++ call ∷ [] }

-- A call, and what the other handlers do to the cache while this one waits for the answer: any change, by
-- the calls made so far. What they do to the services is in the answers of `Services`.
abbrev pub Others : Type 0
Others = List Call → Cache → Cache

unfoldable pub waited : Others → Call → World → World
waited others call w = record {
  calls = w.calls ++ call ∷ [];
  cache = others (w.calls ++ call ∷ []) w.cache;
}

-- The cache behind a row of calls, where the handler does nothing to it itself.
unfoldable pub awaited : Others → (before calls : List Call) → Cache → Cache
awaited others before [] c = c
awaited others before (call ∷ calls) c =
    awaited others (before ++ call ∷ []) calls (others (before ++ call ∷ []) c)

-- `Index::drop_sessions`: no call at all for no keys.
unfoldable pub drop_sessions : Services → Others → List Text → World → World × Bool
drop_sessions services others [] w = (w, true)
drop_sessions services others (key ∷ keys) w = (
  waited others (del_sessions (key ∷ keys)) w,
  services.succeeds w.calls (del_sessions (key ∷ keys)),
)
