-- ===== src/Session/Subscriber.antt =====
-- backend/src/session.rs: the task that listens for invalidations (`subscribe_invalidations` and
-- `subscribed`), and backend/src/cache.rs under it. The other tasks of the instance operate the same
-- cache between any two of its steps.
use open_berat.Base.{
  ℕ, Bool, true, false, List, [], ◌∷◌, Option, none, some, Text, ◌≡◌, refl, sym, ◌∙◌, ◌<◌, ◌-◌, inl,
  inr, arith,
}
use open_berat.Base.Assoc.{lookup}
use open_berat.Policy.Types.{Instant}
use open_berat.Store.Channel.{Audit}
use open_berat.Cache.Cookie.{Key, key_Eq}
use open_berat.Cache.Types.{Externals, Cache, Cached, Entry, ttl}
use open_berat.Cache.Ops
use open_berat.Cache.Ops.{new_cache, get}
use open_berat.Cache.Effects.{get-eq_some}
use open_berat.Cache.Reachable.{Op, apply}
use open_berat.Cache.History.{Traced, Traced-Same}
use open_berat.Cache.Served.{after, after-IsValid, apply-From, apply-subscribed, IsOther}

-- Where the task stands: before the client is open, in the loop before a connection, in the loop of
-- `subscribed`, behind it with the flag still up, asleep, and returned.
pub data Place : Type 0 where
  opening connecting listening leaving sleeping returned : Place

-- A step, with what it does to the cache. In the order of the code: the client opens or the task returns;
-- the connection or the subscription fails, or the flag goes up; a message has a subject or none, the
-- stream ends, and the heartbeat is answered, refused or late; the flag comes down; the task sleeps.
pub data Step : Place → Option Op → Place → Type 0 where
  open_client : Step opening none connecting
  open_failed : Step opening none returned
  connect_failed : Step connecting none leaving
  subscribe_failed : Step connecting none leaving
  subscribed : Step connecting (some (Op.set_subscribed true)) listening
  subject : (sub : Text) → Step listening (some (Op.drop_sub sub)) listening
  no_subject : Step listening none listening
  ended : Step listening none leaving
  pong : Step listening none listening
  ping_failed : Step listening none leaving
  stopped_answering : Step listening none leaving
  cleared : Step leaving (some (Op.set_subscribed false)) sleeping
  retry : Step sleeping none connecting
  other_task : {p : Place} (op : Op) → IsOther op → Step p (some op) p

-- The operations of a step in front of those before it.
abbrev pub noted : Option Op → List Op → List Op
noted none ops = ops
noted (some op) ops = op ∷ ops

-- The steps from the start of the instance, with the operations on its cache, the latest first.
pub data Run : List Op → Place → Type 0 where
  start : Run [] opening
  then :
      {ops : List Op} {p q : Place} {o : Option Op} → Run ops p → Step p o q → Run (noted o ops) q

-- Where the flag is up.
abbrev pub is_up : Place → Bool
is_up listening = true
is_up leaving = true
is_up _ = false

-- The operations since the flag last changed.
abbrev pub since : List Op → List Op
since [] = []
since (Op.set_subscribed b ∷ ops) = []
since (op ∷ ops) = op ∷ since ops

-- Other operations do not end the current subscription.
since-other : (op : Op) (ops : List Op) → IsOther op → since (op ∷ ops) ≡ op ∷ since ops
since-other (Op.insert_entry key sub cached now) ops n = refl
since-other (Op.count key d path ip id now) ops n = refl
since-other (Op.sweep now) ops n = refl
since-other (Op.drop_sub sub) ops n = refl
since-other Op.flush_all ops n = refl
since-other (Op.set_subscribed b) ops n = elim n [ ]
since-other (Op.evict_key key) ops n = refl

module _ (x : Externals) (full : ℕ → Bool) (audit : Audit) where
  abbrev state : List Op → Cache
  state = after x full audit

  -- The flag is up only in the loop of a subscription that succeeded, and on the way out of it.
  Run-subscribed :
      {ops : List Op} {p : Place} → Run ops p → (state ops).subscribed ≡ true → is_up p ≡ true
  unfolding new_cache apply Ops.set_subscribed
  Run-subscribed start h = h
  Run-subscribed (then r open_client) h = Run-subscribed r h
  Run-subscribed (then r open_failed) h = Run-subscribed r h
  Run-subscribed (then r connect_failed) h = refl
  Run-subscribed (then r subscribe_failed) h = refl
  Run-subscribed (then r subscribed) h = refl
  Run-subscribed (then r (subject sub)) h = refl
  Run-subscribed (then r no_subject) h = refl
  Run-subscribed (then r ended) h = refl
  Run-subscribed (then r pong) h = refl
  Run-subscribed (then r ping_failed) h = refl
  Run-subscribed (then r stopped_answering) h = refl
  Run-subscribed (then r cleared) h = h
  Run-subscribed (then r retry) h = Run-subscribed r h
  Run-subscribed (then {ops} r (other_task op n)) h =
      Run-subscribed r (sym (apply-subscribed x full op (state ops) n) ∙ h)

  -- One operation more that is not a change of the flag.
  kept :
      (op : Op) (ops : List Op) (k : Key) (e : Entry)
      → IsOther op
      → (state (op ∷ ops)).subscribed ≡ true
      → lookup k (state (op ∷ ops)).entries ≡ some e
      → ((d : Entry)
          → (state ops).subscribed ≡ true
          → lookup k (state ops).entries ≡ some d
          → Traced (since ops) k d)
      → Traced (since (op ∷ ops)) k e
  kept op ops k e n on h f =
      rw (since-other op ops n)
        (elim (apply-From x full op (state ops) k e (after-IsValid x full audit ops) on h) [
          | inl m ↦ inl m
          | inr (keeps, (on', d, there, same)) ↦
              inr (keeps, Traced-Same (since ops) k d e same (f d on' there))
        ])

  -- A live entry under the flag has come in under the current subscription.
  Run-Traced :
      {ops : List Op} {p : Place} (k : Key) (e : Entry)
      → Run ops p
      → (state ops).subscribed ≡ true
      → lookup k (state ops).entries ≡ some e
      → Traced (since ops) k e
  unfolding new_cache apply Ops.set_subscribed
  Run-Traced k e start on h = absurd (ground arith)
  Run-Traced k e (then r open_client) on h = Run-Traced k e r on h
  Run-Traced k e (then r open_failed) on h = Run-Traced k e r on h
  Run-Traced k e (then r connect_failed) on h = Run-Traced k e r on h
  Run-Traced k e (then r subscribe_failed) on h = Run-Traced k e r on h
  Run-Traced k e (then {ops} r subscribed) on h =
      elim (apply-From x full (Op.set_subscribed true) (state ops) k e
        (after-IsValid x full audit ops) on h) [
          | inl m ↦ absurd m
          | inr (keeps, (on', d, there, same)) ↦
              absurd (let up = Run-subscribed r on' in ground arith)
        ]
  Run-Traced k e (then {ops} r (subject sub)) on h =
      kept (Op.drop_sub sub) ops k e tt on h (λ d. Run-Traced k d r)
  Run-Traced k e (then r no_subject) on h = Run-Traced k e r on h
  Run-Traced k e (then r ended) on h = Run-Traced k e r on h
  Run-Traced k e (then r pong) on h = Run-Traced k e r on h
  Run-Traced k e (then r ping_failed) on h = Run-Traced k e r on h
  Run-Traced k e (then r stopped_answering) on h = Run-Traced k e r on h
  Run-Traced k e (then r cleared) on h = absurd (ground arith)
  Run-Traced k e (then r retry) on h = Run-Traced k e r on h
  Run-Traced k e (then {ops} r (other_task op n)) on h =
      kept op ops k e n on h (λ d. Run-Traced k d r)

  -- Whatever steps the task and the others have made, an answer is served only while the task listens to a
  -- subscription or is on its way out of one, and it was put in for the same key under that subscription,
  -- less than a time to live ago, and behind that insertion no invalidation of its subject was received or
  -- made here, and nothing flushed.
  pub Run-serves :
      {ops : List Op} {p : Place} (k : Key) (now : Instant) (cached : Cached)
      → Run ops p
      → get x full k now (after x full audit ops) ≡ some cached
      → (is_up p ≡ true)
        × (e : Entry) × Traced (since ops) k e
        × (e.cached ≡ cached)
        × (now - e.inserted < ttl)
  Run-serves {ops} k now cached r h =
      let (on, e, there, same, young) = get-eq_some x full k now (state ops) h in
      (Run-subscribed r on, e, Run-Traced k e r on there, same, young)
