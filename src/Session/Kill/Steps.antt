-- ===== src/Session/Kill/Steps.antt =====
-- backend/src/admin.rs: which calls the kill switch has made, and what became of the cache, for each
-- of its answers.
use mathlib.Core.List.{append_assoc}
use open_berat.Base.{
  ℕ, Bool, true, false, List, [], ◌∷◌, ◌++◌, if◌then◌else◌, Text, ◌≡◌, arith, List-cases, inl, inr,
}
use open_berat.Cache.Types.{Externals, Cache}
use open_berat.Cache.Ops.{drop_sub}
use open_berat.Session.World.{
  Call, logout_all, smembers, del_sessions, publish, del_index, Services, World, Others, waited,
  awaited, drop_sessions,
}
use open_berat.Session.Kill.{
  Answer, killed, not_found, refused, keycloak_logout_all, read_session_index, delete_sessions,
  publish_invalidation, forget_index_entry, kill_index, kill_cache, kill_sessions, kill_read, kill,
}

-- The call that deletes sessions, where there are any.
abbrev pub deletion : List Text → List Call
deletion [] = []
deletion (key ∷ keys) = del_sessions (key ∷ keys) ∷ []

module _ (sub : Text) (sessions : List Text) where
  -- The calls behind an answer, in order.
  abbrev pub made : Answer → List Call
  made (refused keycloak_logout_all) = logout_all sub ∷ []
  made not_found = logout_all sub ∷ []
  made (refused read_session_index) = logout_all sub ∷ smembers sub ∷ []
  made (refused delete_sessions) = logout_all sub ∷ smembers sub ∷ deletion sessions
  made (refused publish_invalidation) =
      logout_all sub ∷ smembers sub ∷ (deletion sessions ++ publish sub ∷ [])
  made (refused forget_index_entry) =
      logout_all sub ∷ smembers sub ∷ (deletion sessions ++ publish sub ∷ del_index sub ∷ [])
  made (killed n) =
      logout_all sub ∷ smembers sub ∷ (deletion sessions ++ publish sub ∷ del_index sub ∷ [])

-- Whether the kill switch came as far as the cache.
abbrev pub reached : Answer → Bool
reached (killed n) = true
reached (refused publish_invalidation) = true
reached (refused forget_index_entry) = true
reached _ = false

-- The calls behind the drop of the local entries.
abbrev pub behind : (sub : Text) → Answer → List Call
behind sub (killed n) = del_index sub ∷ []
behind sub (refused forget_index_entry) = del_index sub ∷ []
behind sub _ = []

-- The calls before it.
abbrev pub ahead : (sub : Text) → (sessions : List Text) → List Call
ahead sub sessions = logout_all sub ∷ smembers sub ∷ (deletion sessions ++ publish sub ∷ [])

module _ (services : Services) (others : Others) (x : Externals) (full : ℕ → Bool)
    (sub : Text) where
  abbrev pub after_keycloak : World → List Call
  after_keycloak w = w.calls ++ logout_all sub ∷ []

  -- The sessions that the index names.
  abbrev pub found : World → List Text
  found w = services.members (after_keycloak w) sub

  -- The cache that the drop meets.
  abbrev pub met : World → Cache
  met w = awaited others w.calls (ahead sub (found w)) w.cache

  -- The cache behind an answer: this instance drops the entries of the subject between the broadcast and
  -- the deletion of the index entry, and the rest is what the other handlers do at each wait.
  abbrev pub behind_answer : World → Answer → Cache
  behind_answer w a =
      if reached a
      then awaited others (w.calls ++ ahead sub (found w)) (behind sub a)
          (drop_sub x full sub (met w))
      else awaited others w.calls (made sub (found w) a) w.cache

  -- For every answer of the kill switch, whatever the other handlers do to the cache while it waits, the
  -- calls that it has made are the ones that `made` lists for this answer, in this order, and this
  -- instance dropped the entries of the subject exactly if it came as far as the cache: once, behind the
  -- broadcast and before the deletion of the index entry.
  pub kill-steps :
      (w : World)
      → ((kill services others x full sub w).0.calls
          ≡ w.calls ++ made sub (found w) (kill services others x full sub w).1)
        × ((kill services others x full sub w).0.cache
            ≡ behind_answer w (kill services others x full sub w).1)
  unfolding kill kill_read kill_sessions kill_cache kill_index drop_sessions waited awaited
  kill-steps w = elim (List-cases (found w)) [
    | inl e ↦ ground (
      arith,
      append_assoc w.calls (logout_all sub ∷ []) (smembers sub ∷ []),
      append_assoc w.calls (logout_all sub ∷ smembers sub ∷ []) (publish sub ∷ []),
      append_assoc w.calls (logout_all sub ∷ smembers sub ∷ publish sub ∷ []) (del_index sub ∷ []),
    )
    | inr (key, keys, e) ↦
        let gone = del_sessions (key ∷ keys) in
        ground (
          arith,
          append_assoc w.calls (logout_all sub ∷ []) (smembers sub ∷ []),
          append_assoc w.calls (logout_all sub ∷ smembers sub ∷ []) (gone ∷ []),
          append_assoc w.calls (logout_all sub ∷ smembers sub ∷ gone ∷ []) (publish sub ∷ []),
          append_assoc w.calls (logout_all sub ∷ smembers sub ∷ gone ∷ publish sub ∷ [])
              (del_index sub ∷ []),
        )
  ]
