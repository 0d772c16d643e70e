-- ===== src/Session/Kill/Window.antt =====
-- backend/src/admin.rs over backend/src/cache.rs: what this instance still serves behind the kill switch,
-- with the other tasks of the instance at work on the same cache while it waits.
use open_berat.Base.{
  ℕ, ◌-◌, ◌<◌, Bool, true, List, [], ◌∷◌, ◌++◌, some, Text, ◌≡◌, ◌≢◌, ◌⊎◌, inl, inr, refl, sym, ap,
  ◌∙◌, arith,
}
use open_berat.Policy.Types.{Instant}
use open_berat.Store.Channel.{Audit}
use open_berat.Base.Assoc.{lookup}
use open_berat.Cache.Cookie.{Key, key_Eq}
use open_berat.Cache.Effects.{get-eq_some}
use open_berat.Cache.Types.{Externals, Cache, Cached, Entry, ttl}
use open_berat.Cache.Ops.{drop_sub, get}
use open_berat.Cache.Reachable.{Op, apply}
use open_berat.Cache.History.{Traced}
use open_berat.Cache.Served.{after, after-Traced}
use open_berat.Session.World.{Call, del_index, Services, World, Others, awaited}
use open_berat.Session.Kill.{
  Answer, killed, not_found, refused, keycloak_logout_all, read_session_index, delete_sessions,
  publish_invalidation, forget_index_entry, kill,
}
use open_berat.Session.Kill.Steps.{reached, ahead, found, behind_answer, kill-steps}

-- Behind an invalidation only what came in later is left of its subject.
Traced-split :
    (late ops : List Op) (sub : Text) (k : Key) (e : Entry)
    → Traced (late ++ Op.drop_sub sub ∷ ops) k e
    → (e.sub ≢ sub) ⊎ Traced late k e
Traced-split [] ops sub k e (inl m) = absurd m
Traced-split [] ops sub k e (inr (keeps, t)) = inl (λ h. keeps (sym h))
Traced-split (op ∷ late) ops sub k e (inl m) = inr (inl m)
Traced-split (op ∷ late) ops sub k e (inr (keeps, t)) = elim (Traced-split late ops sub k e t) [
  | inl other ↦ inl other
  | inr t' ↦ inr (inr (keeps, t'))
]

module _ (x : Externals) (full : ℕ → Bool) (audit : Audit) where
  -- The operations of the other tasks while the handler waits, by the calls made so far, the latest first.
  abbrev replayed : List Op → Cache → Cache
  replayed [] c = c
  replayed (op ∷ ops) c = apply x full (replayed ops c) op

  abbrev pub tasks_at : (List Call → List Op) → Others
  tasks_at tasks calls c = replayed (tasks calls) c

  after-append :
      (late ops : List Op)
      → replayed late (after x full audit ops) ≡ after x full audit (late ++ ops)
  after-append [] ops = refl
  after-append (op ∷ late) ops = ap (λ c. apply x full c op) (after-append late ops)

  -- What the other tasks do over a row of calls is a history.
  awaited-after :
      (tasks : List Call → List Op) (before calls : List Call) (ops : List Op)
      → (more : List Op) × (awaited (tasks_at tasks) before calls (after x full audit ops)
          ≡ after x full audit more)
  unfolding awaited
  awaited-after tasks before [] ops = (ops, refl)
  awaited-after tasks before (call ∷ calls) ops =
      let next = before ++ call ∷ [] in
      let (more, e) = awaited-after tasks next calls (tasks next ++ ops) in
      (more, ap (awaited (tasks_at tasks) next calls) (after-append (tasks next) ops) ∙ e)

  module _ (services : Services) (tasks : List Call → List Op) (sub : Text) where
    abbrev pub run : World → World × Answer
    run w = kill services (tasks_at tasks) x full sub w

    -- The operations of the other tasks while the handler waits for the deletion of the index entry, the
    -- one wait behind the drop.
    abbrev pub in_flight : World → Answer → List Op
    in_flight w (killed n) = tasks (
        (w.calls ++ ahead sub (found services (tasks_at tasks) x full sub w)) ++ del_index sub ∷ [])
    in_flight w (refused forget_index_entry) = tasks (
        (w.calls ++ ahead sub (found services (tasks_at tasks) x full sub w)) ++ del_index sub ∷ [])
    in_flight w _ = []

    abbrev before_index : World → List Call
    before_index w = w.calls ++ ahead sub (found services (tasks_at tasks) x full sub w)

    abbrev dropped : World → Cache
    dropped w = drop_sub x full sub (
        awaited (tasks_at tasks) w.calls (ahead sub (found services (tasks_at tasks) x full sub w))
          w.cache)

    dropped-after :
        (w : World) (ops : List Op)
        → w.cache ≡ after x full audit ops
        → (more : List Op) × (dropped w ≡ after x full audit (Op.drop_sub sub ∷ more))
    unfolding apply
    dropped-after w ops start =
        let calls = ahead sub (found services (tasks_at tasks) x full sub w) in
        let (more, e) = awaited-after tasks w.calls calls ops in
        (
          more,
          ap (λ c. drop_sub x full sub (awaited (tasks_at tasks) w.calls calls c)) start
              ∙ ap (drop_sub x full sub) e,
        )

    behind_answer-after :
        (w : World) (more : List Op) (a : Answer)
        → dropped w ≡ after x full audit (Op.drop_sub sub ∷ more)
        → reached a ≡ true
        → behind_answer services (tasks_at tasks) x full sub w a
          ≡ after x full audit (in_flight w a ++ Op.drop_sub sub ∷ more)
    unfolding awaited
    behind_answer-after w more (killed n) e far =
        let late = tasks (before_index w ++ del_index sub ∷ []) in
        ap (replayed late) e ∙ after-append late (Op.drop_sub sub ∷ more)
    behind_answer-after w more (refused forget_index_entry) e far =
        let late = tasks (before_index w ++ del_index sub ∷ []) in
        ap (replayed late) e ∙ after-append late (Op.drop_sub sub ∷ more)
    behind_answer-after w more (refused publish_invalidation) e far = e
    behind_answer-after w more not_found e far = absurd (ground arith)
    behind_answer-after w more (refused keycloak_logout_all) e far = absurd (ground arith)
    behind_answer-after w more (refused read_session_index) e far = absurd (ground arith)
    behind_answer-after w more (refused delete_sessions) e far = absurd (ground arith)

    -- On a cache that any history of this instance led to, while other tasks make any operations on it at
    -- each wait of the handler: once the kill switch has come as far as the cache, also where it then
    -- reports a failure, an entry that this instance still serves belongs to another subject, or another
    -- task put it in behind the drop, while the handler waited for the deletion of the index entry (the
    -- request in flight that the order of the steps does not catch), for the same key, less than a time to
    -- live ago and with no invalidation of its subject and no flush behind it. Where the broadcast failed there is no
    -- such wait, so nothing of the subject is served.
    pub kill-window :
        (w : World) (ops : List Op) (k : Key) (now : Instant) (cached : Cached)
        → w.cache ≡ after x full audit ops
        → reached (run w).1 ≡ true
        → get x full k now (run w).0.cache ≡ some cached
        → (e : Entry) × (lookup k (run w).0.cache.entries ≡ some e)
          × (e.cached ≡ cached)
          × (now - e.inserted < ttl)
          × ((e.sub ≢ sub) ⊎ Traced (in_flight w (run w).1) k e)
    kill-window w ops k now cached start far h =
        let (more, d) = dropped-after w ops start in
        let made : (run w).0.cache
            ≡ after x full audit (in_flight w (run w).1 ++ Op.drop_sub sub ∷ more) =
          (kill-steps services (tasks_at tasks) x full sub w).1
          ∙ behind_answer-after w more (run w).1 d far in
        let (on, e, there, same, young) = get-eq_some x full k now (run w).0.cache h in
        let traced =
          after-Traced x full audit _ k e (ap (λ (c : Cache). c.subscribed) (sym made) ∙ on)
            (ap (λ (c : Cache). lookup k c.entries) (sym made) ∙ there) in
        (e, there, same, young, Traced-split (in_flight w (run w).1) more sub k e traced)
