-- ===== src/Session/Kill.antt =====
-- backend/src/admin.rs: the kill switch (`kill`), its steps in their order. At each wait the other handlers
-- of the instance may change the cache.
pub mod Steps
pub mod Window
use open_berat.Base.{
  ℕ, Bool, true, false, List, [], ◌∷◌, ◌++◌, if◌then◌else◌, Text, length, ◌≡◌, ◌⊎◌, inl, inr, refl,
  arith, Option, none, some, get_elem?, Bool-cases, ◌≢◌,
}
use open_berat.Cache.Types.{Externals, Cache}
use open_berat.Cache.Ops.{drop_sub, get}
use open_berat.Session.World.{
  Call, logout_all, sign_out, smembers, del_sessions, publish, del_index, Logout, Services, World,
  Others, waited, drop_sessions,
}

-- The step that a refusal names.
pub data Step : Type 0 where
  keycloak_logout_all read_session_index delete_sessions publish_invalidation : Step
  forget_index_entry : Step

pub data Answer : Type 0 where
  killed : (sessions : ℕ) → Answer
  not_found : Answer
  refused : Step → Answer

module _ (services : Services) (others : Others) (x : Externals) (full : ℕ → Bool)
    (sub : Text) where
  abbrev drop_local : World → World
  drop_local w = record w { cache = drop_sub x full sub w.cache }

  -- From the deletion of the index entry on.
  unfoldable pub kill_index : List Text → World → World × Answer
  kill_index sessions w =
      if services.succeeds w.calls (del_index sub)
      then (waited others (del_index sub) w, killed (length sessions))
      else (waited others (del_index sub) w, refused forget_index_entry)

  -- From the broadcast on: the local entries are dropped whatever it answers.
  unfoldable pub kill_cache : List Text → World → World × Answer
  kill_cache sessions w =
      let published = services.succeeds w.calls (publish sub) in
      let dropped = drop_local (waited others (publish sub) w) in
      if published then kill_index sessions dropped else (dropped, refused publish_invalidation)

  -- From the deletion of the sessions on.
  unfoldable pub kill_sessions : List Text → World → World × Answer
  kill_sessions sessions w =
      let (w', deleted) = drop_sessions services others sessions w in
      if deleted then kill_cache sessions w' else (w', refused delete_sessions)

  -- From the reading of the index on.
  unfoldable pub kill_read : World → World × Answer
  kill_read w =
      if services.succeeds w.calls (smembers sub)
      then kill_sessions (services.members w.calls sub) (waited others (smembers sub) w)
      else (waited others (smembers sub) w, refused read_session_index)

  unfoldable pub kill : World → World × Answer
  kill w = elim (services.logout w.calls sub) [
    | Logout.done ↦ kill_read (waited others (logout_all sub) w)
    | Logout.no_such_user ↦ (waited others (logout_all sub) w, not_found)
    | Logout.failed ↦ (waited others (logout_all sub) w, refused keycloak_logout_all)
  ]
