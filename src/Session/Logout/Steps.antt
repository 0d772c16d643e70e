-- ===== src/Session/Logout/Steps.antt =====
-- backend/src/portal.rs: what a logout has done, for each of its answers.
use mathlib.Core.List.{append_assoc}
use open_berat.Base.{
  ℕ, Bool, true, false, List, [], ◌∷◌, ◌++◌, if◌then◌else◌, Text, ◌≡◌, arith, some, ◌⊎◌, inl, inr,
  ap, ◌∙◌, Bool-cases, Option-cases, text_eq, text_eq_sound,
}
use open_berat.Cache.Types.{Externals, Cache}
use open_berat.Cache.Ops.{drop_sub}
use open_berat.Session.Ticket.{Base64}
use open_berat.Session.World.{
  Call, sign_out, del_sessions, publish, srem, Services, World, Others, waited, awaited,
  drop_sessions,
}
use open_berat.Session.Logout.{
  Headers, Caller, caller_from, from_portal, derived_key, Answer, no_content, failed,
  oauth2_proxy_sign_out, delete_session, publish_invalidation, forget_index_entry, logout_index,
  logout_cache, logout_session, logout_steps, logout,
}

-- The calls behind an answer, in order: of the subject's sessions only the caller's own is touched.
abbrev pub made : (sub key : Text) → Answer → List Call
made sub key no_content = sign_out ∷ del_sessions (key ∷ []) ∷ publish sub ∷ srem sub key ∷ []
made sub key (failed forget_index_entry) =
    sign_out ∷ del_sessions (key ∷ []) ∷ publish sub ∷ srem sub key ∷ []
made sub key (failed publish_invalidation) = sign_out ∷ del_sessions (key ∷ []) ∷ publish sub ∷ []
made sub key (failed delete_session) = sign_out ∷ del_sessions (key ∷ []) ∷ []
made sub key (failed oauth2_proxy_sign_out) = sign_out ∷ []
made sub key _ = []

abbrev pub reached : Answer → Bool
reached no_content = true
reached (failed publish_invalidation) = true
reached (failed forget_index_entry) = true
reached _ = false

-- The calls before the drop of the local entries, and the one behind it.
abbrev pub ahead : (sub key : Text) → List Call
ahead sub key = sign_out ∷ del_sessions (key ∷ []) ∷ publish sub ∷ []

abbrev pub behind : (sub key : Text) → Answer → List Call
behind sub key no_content = srem sub key ∷ []
behind sub key (failed forget_index_entry) = srem sub key ∷ []
behind sub key _ = []

module _ (services : Services) (others : Others) (x : Externals) (full : ℕ → Bool) where
  -- The cache behind an answer: the handler drops the entries of the subject between the broadcast and
  -- the deletion of its session from the index, and the rest is what the other handlers do at each wait.
  abbrev pub behind_answer : (sub key : Text) → World → Answer → Cache
  behind_answer sub key w a =
      if reached a
      then awaited others (w.calls ++ ahead sub key) (behind sub key a)
          (drop_sub x full sub (awaited others w.calls (ahead sub key) w.cache))
      else awaited others w.calls (made sub key a) w.cache

  logout_steps-made :
      (sub key : Text) (w : World)
      → ((logout_steps services others x full sub key w).0.calls
          ≡ w.calls ++ made sub key (logout_steps services others x full sub key w).1)
        × ((logout_steps services others x full sub key w).0.cache
            ≡ behind_answer sub key w (logout_steps services others x full sub key w).1)
  unfolding logout_steps logout_session logout_cache logout_index drop_sessions waited awaited
  logout_steps-made sub key w = ground (
    arith,
    append_assoc w.calls (sign_out ∷ []) (del_sessions (key ∷ []) ∷ []),
    append_assoc w.calls (sign_out ∷ del_sessions (key ∷ []) ∷ []) (publish sub ∷ []),
    append_assoc w.calls (sign_out ∷ del_sessions (key ∷ []) ∷ publish sub ∷ [])
        (srem sub key ∷ []),
  )

  -- A logout leaves calls and cache as they were, or it is by an identified caller, from the
  -- portal's own origin, with a session key derived from its cookie; then it makes the calls that
  -- `made` lists for its answer, in this order, whatever the other handlers do to the cache while it
  -- waits, and drops the caller's entries exactly if it came as far as the cache, once, behind the
  -- broadcast.
  pub logout-made :
      (engine : Base64) (portal_origin : Text) (headers : Headers) (w : World)
      → (logout services others x engine full portal_origin headers w).0 ≡ w
        ⊎ ((caller : Caller) × (key : Text) × (caller_from headers ≡ some caller)
            × (headers.origin ≡ some portal_origin)
            × (derived_key engine headers.cookie ≡ some key)
            × (logout services others x engine full portal_origin headers w
                ≡ logout_steps services others x full caller.sub key w)
            × ((logout services others x engine full portal_origin headers w).0.calls
                ≡ w.calls
                  ++ made caller.sub key
                      (logout services others x engine full portal_origin headers w).1)
            × ((logout services others x engine full portal_origin headers w).0.cache
                ≡ behind_answer caller.sub key w
                    (logout services others x engine full portal_origin headers w).1))
  unfolding logout from_portal
  logout-made engine portal_origin headers w = elim (Option-cases (caller_from headers)) [
    | inl e ↦ inl (ground arith)
    | inr (caller, e) ↦ elim (Option-cases headers.origin) [
      | inl f ↦ inl (ground arith)
      | inr (origin, f) ↦ elim (Bool-cases (text_eq origin portal_origin)) [
        | inr g ↦ inl (ground arith)
        | inl g ↦ elim (Bool-cases headers.has_cookie) [
          | inr i ↦ inl (ground arith)
          | inl i ↦ elim (Option-cases (derived_key engine headers.cookie)) [
            | inl j ↦ inl (ground arith)
            | inr (key, j) ↦
                let same : logout services others x engine full portal_origin headers w
                    ≡ logout_steps services others x full caller.sub key w =
                  ground arith in
                let steps = logout_steps-made caller.sub key w in
                inr (
                  caller,
                  key,
                  e,
                  f ∙ ap some (text_eq_sound origin portal_origin g),
                  j,
                  same,
                  ground arith,
                  ground arith,
                )
          ]
        ]
      ]
    ]
  ]
