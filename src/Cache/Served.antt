-- ===== src/Cache/Served.antt =====
-- backend/src/cache.rs: nothing is served that an invalidation, a flush or a gap in the subscription has
-- come behind.
use open_berat.Base.{
  ℕ, ◌-◌, ◌<◌, Bool, true, false, List, [], ◌∷◌, some, Text, text_eq, text_eq_refl, ◌≡◌, inl, inr,
  refl, sym, ◌∙◌, arith, Bool-cases,
}
use open_berat.Base.Assoc.{lookup}
use open_berat.Policy.Types.{Instant}
use open_berat.Store.Channel.{Audit}
use open_berat.Cache.Cookie.{Key, key_Eq}
use open_berat.Cache.Types.{Externals, Cached, Entry, Cache, ttl}
use open_berat.Cache.Ops
use open_berat.Cache.Ops.{new_cache, get}
use open_berat.Cache.Coherence.{owned}
use open_berat.Cache.Effects.{
  evict-subscribed, evict_all-lookup, evict_all-subscribed, drop_sub-lookup, drop_sub-subscribed,
  flush_all-entries, get-eq_some, set_subscribed-entries,
}
use open_berat.Cache.Reachable.{Op, apply, IsValid, apply-IsValid, new_cache-IsValid}
use open_berat.Cache.History.{
  Traced, Traced-Same, From, insert_entry-From, count-From, insert_entry-subscribed,
  count-subscribed, evict-before,
}

-- An operation that leaves the flag alone.
abbrev pub IsOther : Op → Type 0
IsOther (Op.set_subscribed b) = ⊥
IsOther _ = Unit

module _ (x : Externals) (full : ℕ → Bool) where
  drop_sub-From :
      (sub : Text) (c : Cache) (k : Key) (e : Entry)
      → IsValid x full c
      → (Ops.drop_sub x full sub c).subscribed ≡ true
      → lookup k (Ops.drop_sub x full sub c).entries ≡ some e
      → From x full (Op.drop_sub sub) k e c
  drop_sub-From sub c k e v on h =
      let found = sym (drop_sub-lookup x full sub k c v.coherent) ∙ h in
      elim (Bool-cases (owned k sub c.entries)) [
        | inl o ↦ absurd (ground arith)
        | inr o ↦
            let there : lookup k c.entries ≡ some e = ground arith in
            let other : text_eq e.sub sub ≡ false = rw there at o in
            inr (
              (λ s. absurd (ground (arith, text_eq_refl e.sub))),
              (sym (drop_sub-subscribed x full sub c) ∙ on, e, there, (refl, refl, refl)),
            )
      ]

  set_subscribed-From :
      (on : Bool) (c : Cache) (k : Key) (e : Entry)
      → (Ops.set_subscribed x full on c).subscribed ≡ true
      → lookup k (Ops.set_subscribed x full on c).entries ≡ some e
      → From x full (Op.set_subscribed on) k e c
  unfolding Ops.set_subscribed lookup
  set_subscribed-From false c k e h f = absurd (ground arith)
  set_subscribed-From true c k e h f = elim (Bool-cases c.subscribed) [
    | inl on ↦ inr (tt, (on, e, rw (on, Ops.set_subscribed) at f, (refl, refl, refl)))
    | inr off ↦
        absurd
          (empty (Ops.set_subscribed x full true c).entries (set_subscribed-entries x full c off) f)
  ]
    where
      empty : (es : List (Key × Entry)) → es ≡ [] → lookup k es ≡ some e → ⊥
      empty es g f = let h : lookup k [] ≡ some e = rw g at f in ground arith

  pub apply-From :
      (op : Op) (c : Cache) (k : Key) (e : Entry)
      → IsValid x full c
      → (apply x full c op).subscribed ≡ true
      → lookup k (apply x full c op).entries ≡ some e
      → From x full op k e c
  unfolding apply Ops.sweep lookup
  apply-From (Op.insert_entry key sub cached now) c k e v on h =
      insert_entry-From x full key sub cached now c k e on h
  apply-From (Op.count key d path ip id now) c k e v on h =
      count-From x full key d path ip id now c k e on h
  apply-From (Op.sweep now) c k e v on h =
      let keys = Ops.expired_keys x full now c.entries in
      inr (
        tt,
        (
          sym (evict_all-subscribed x full keys c) ∙ on,
          e,
          ground (arith, evict_all-lookup x full keys k c),
          (refl, refl, refl),
        ),
      )
  apply-From (Op.drop_sub sub) c k e v on h = drop_sub-From sub c k e v on h
  apply-From Op.flush_all c k e v on h =
      absurd (let f : lookup k [] ≡ some e = rw (flush_all-entries x full c) at h in ground arith)
  apply-From (Op.set_subscribed b) c k e v on h = set_subscribed-From b c k e on h
  apply-From (Op.evict_key key) c k e v on h = inr (
    tt,
    (
      sym (evict-subscribed x full key c) ∙ on,
      e,
      evict-before x full key k e c h,
      (refl, refl, refl),
    ),
  )

  -- No operation but `set_subscribed` moves the flag.
  pub apply-subscribed :
      (op : Op) (c : Cache) → IsOther op → (apply x full c op).subscribed ≡ c.subscribed
  unfolding apply Ops.sweep Ops.flush_all
  apply-subscribed (Op.insert_entry key sub cached now) c o =
      insert_entry-subscribed x full key sub cached now c
  apply-subscribed (Op.count key d path ip id now) c o =
      count-subscribed x full key d path ip id now c
  apply-subscribed (Op.sweep now) c o =
      evict_all-subscribed x full (Ops.expired_keys x full now c.entries) c
  apply-subscribed (Op.drop_sub sub) c o = drop_sub-subscribed x full sub c
  apply-subscribed Op.flush_all c o = evict_all-subscribed x full _ c
  apply-subscribed (Op.set_subscribed b) c o = elim o [ ]
  apply-subscribed (Op.evict_key key) c o = evict-subscribed x full key c

  -- The state behind a history, the latest operation first.
  abbrev pub after : Audit → List Op → Cache
  after audit [] = new_cache audit
  after audit (op ∷ ops) = apply x full (after audit ops) op

  pub after-IsValid : (audit : Audit) (ops : List Op) → IsValid x full (after audit ops)
  after-IsValid audit [] = new_cache-IsValid x full audit
  after-IsValid audit (op ∷ ops) =
      apply-IsValid x full (after audit ops) op (after-IsValid audit ops)

  pub after-Traced :
      (audit : Audit) (ops : List Op) (k : Key) (e : Entry)
      → (after audit ops).subscribed ≡ true
      → lookup k (after audit ops).entries ≡ some e
      → Traced ops k e
  unfolding new_cache
  after-Traced audit [] k e on h = absurd (ground arith)
  after-Traced audit (op ∷ ops) k e on h =
      elim (apply-From op (after audit ops) k e (after-IsValid audit ops) on h) [
        | inl m ↦ inl m
        | inr (n, (on', d, there, same)) ↦
            inr (n, Traced-Same ops k d e same (after-Traced audit ops k d on' there))
      ]

  -- Whatever is served at the end of any history was put in by an insertion of that history, for the same
  -- key, less than a time to live ago, and behind that insertion there is no invalidation of its subject,
  -- no flush, and no loss of the subscription.
  pub get-Traced :
      (audit : Audit) (ops : List Op) (k : Key) (now : Instant) (cached : Cached)
      → get x full k now (after audit ops) ≡ some cached
      → (e : Entry) × Traced ops k e × (e.cached ≡ cached) × (now - e.inserted < ttl)
  get-Traced audit ops k now cached h =
      let (on, e, there, same, young) = get-eq_some x full k now (after audit ops) h in
      (e, after-Traced audit ops k e on there, same, young)
