-- ===== src/Cache/History.antt =====
-- backend/src/cache.rs: what the cache serves, in terms of the operations that led to it.
use open_berat.Base.{
  ℕ, zero, suc, Bool, true, false, List, [], ◌∷◌, Option, some, Text, ltb, length, ◌≡◌, ◌≢◌, ◌⊎◌,
  inl, inr, refl, sym, ap, ◌∙◌, arith, Bool-cases, Option-cases, subst,
}
use open_berat.Base.Assoc.{lookup, insert, lookup-remove, lookup-insert}
use open_berat.Policy.Types.{Instant, Decision}
use open_berat.Store.Channel.{IpAddr}
use open_berat.Cache.Cookie.{Key, key_eq, key_eq_iff, key_Eq}
use open_berat.Cache.Types.{Externals, Cached, Entry, Cache, capacity}
use open_berat.Cache.Ops
use open_berat.Cache.Ops.{new_cache, get, let_go, evict, evict_all, oldest, shrink, place, count_in}
use open_berat.Cache.Effects.{evict-lookup, evict-subscribed}
use open_berat.Cache.Reachable.{Op}

-- The operation that put an entry in.
abbrev pub Made : Op → Key → Entry → Type 0
Made (Op.insert_entry key sub cached now) k e =
    (key ≡ k) × (sub ≡ e.sub) × (cached ≡ e.cached) × (now ≡ e.inserted)
Made _ k e = ⊥

-- An operation that leaves the entries of a subject good.
abbrev pub Keeps : Op → Text → Type 0
Keeps (Op.drop_sub s) sub = s ≢ sub
Keeps Op.flush_all sub = ⊥
Keeps (Op.set_subscribed false) sub = ⊥
Keeps _ sub = Unit

-- An entry that one of the operations put in, and that all behind it leave good. The latest operation
-- stands first.
abbrev pub Traced : List Op → Key → Entry → Type 0
Traced [] k e = ⊥
Traced (op ∷ ops) k e = Made op k e ⊎ (Keeps op e.sub × Traced ops k e)

-- An entry that has only counted on.
abbrev pub Same : Entry → Entry → Type 0
Same d e = (d.sub ≡ e.sub) × (d.cached ≡ e.cached) × (d.inserted ≡ e.inserted)

Made-Same : (op : Op) (k : Key) (d e : Entry) → Same d e → Made op k d → Made op k e
Made-Same (Op.insert_entry key sub cached now) k d e (s, c, i) (a, b, f, g) =
    (a, b ∙ s, f ∙ c, g ∙ i)
Made-Same (Op.count key d' path ip id now) k d e s m = m
Made-Same (Op.sweep now) k d e s m = m
Made-Same (Op.drop_sub sub) k d e s m = m
Made-Same Op.flush_all k d e s m = m
Made-Same (Op.set_subscribed on) k d e s m = m
Made-Same (Op.evict_key key) k d e s m = m

pub Traced-Same :
    (ops : List Op) (k : Key) (d e : Entry) → Same d e → Traced ops k d → Traced ops k e
Traced-Same [] k d e s t = t
Traced-Same (op ∷ ops) k d e s (inl m) = inl (Made-Same op k d e s m)
Traced-Same (op ∷ ops) k d e s (inr (n, t)) =
    inr (subst (Keeps op) s.0 n, Traced-Same ops k d e s t)

module _ (x : Externals) (full : ℕ → Bool) where
  pub evict-before :
      (key k : Key) (e : Entry) (c : Cache)
      → lookup k (evict x full key c).entries ≡ some e
      → lookup k c.entries ≡ some e
  evict-before key k e c h = ground (arith, evict-lookup x full key k c)

  let_go-before :
      (key k : Key) (d e : Entry) (c : Cache)
      → lookup k (let_go x full key d c).entries ≡ some e
      → lookup k c.entries ≡ some e
  unfolding let_go
  let_go-before key k d e c h = ground (arith, lookup-remove key k c.entries)

  -- What is left behind the bound was there before it.
  shrink-before :
      (fuel : ℕ) (k : Key) (e : Entry) (c : Cache)
      → lookup k (shrink x full fuel c).entries ≡ some e
      → lookup k c.entries ≡ some e
  unfolding shrink
  shrink-before zero k e c h = h
  shrink-before (suc fuel) k e c h = elim (Bool-cases (ltb capacity (length c.entries))) [
    | inr a ↦ rw (a, shrink) at h
    | inl a ↦ elim (Option-cases (oldest x full c.entries)) [
      | inl b ↦ rw (a, b, shrink) at h
      | inr (key, b) ↦ elim (Option-cases (lookup key c.entries)) [
        | inl d ↦ rw (a, b, d, shrink) at h
        | inr (entry, d) ↦
            let_go-before key k entry e c
              (shrink-before fuel k e (let_go x full key entry c) (rw (a, b, d, shrink) at h))
      ]
    ]
  ]

  shrink-subscribed : (fuel : ℕ) (c : Cache) → (shrink x full fuel c).subscribed ≡ c.subscribed
  unfolding shrink let_go
  shrink-subscribed zero c = refl
  shrink-subscribed (suc fuel) c = elim (Bool-cases (ltb capacity (length c.entries))) [
    | inr a ↦ rw (a, shrink) refl
    | inl a ↦ elim (Option-cases (oldest x full c.entries)) [
      | inl b ↦ rw (a, b, shrink) refl
      | inr (key, b) ↦ elim (Option-cases (lookup key c.entries)) [
        | inl d ↦ rw (a, b, d, shrink) refl
        | inr (entry, d) ↦ rw (a, b, d, shrink) (shrink-subscribed fuel (let_go x full key entry c))
      ]
    ]
  ]

  pub insert_entry-subscribed :
      (key : Key) (sub : Text) (cached : Cached) (now : Instant) (c : Cache)
      → (Ops.insert_entry x full key sub cached now c).subscribed ≡ c.subscribed
  unfolding Ops.insert_entry place
  insert_entry-subscribed key sub cached now c =
      shrink-subscribed _ (place x full key sub cached now (evict x full key c))
      ∙ evict-subscribed x full key c

  pub count-subscribed :
      (key : Key) (d : Decision) (path : Text) (ip : Option IpAddr) (id : Option Text)
      (now : Instant) (c : Cache)
      → (Ops.count x full key d path ip id now c).0.subscribed ≡ c.subscribed
  unfolding Ops.count
  count-subscribed key d path ip id now c = elim (Option-cases (lookup key c.entries)) [
    | inl a ↦ rw (a, Ops.count) refl
    | inr (entry, a) ↦ rw (a, Ops.count) refl
  ]

  -- Where an entry behind an operation comes from, under a subscription.
  abbrev pub From : Op → Key → Entry → Cache → Type 0
  From op k e c =
      Made op k e
      ⊎ (Keeps op e.sub
          × ((c.subscribed ≡ true) × (d : Entry) × (lookup k c.entries ≡ some d) × Same d e))

  pub insert_entry-From :
      (key : Key) (sub : Text) (cached : Cached) (now : Instant) (c : Cache) (k : Key) (e : Entry)
      → (Ops.insert_entry x full key sub cached now c).subscribed ≡ true
      → lookup k (Ops.insert_entry x full key sub cached now c).entries ≡ some e
      → From (Op.insert_entry key sub cached now) k e c
  unfolding Ops.insert_entry place
  insert_entry-From key sub cached now c k e on h =
      let gone = evict x full key c in
      let placed = place x full key sub cached now gone in
      let made : Entry = record {
        sub = sub;
        slug = key.slug;
        cached = cached;
        inserted = now;
        counters = [];
      } in
      let there = shrink-before _ k e placed h in
      let kept : c.subscribed ≡ true =
        sym (evict-subscribed x full key c) ∙ sym (shrink-subscribed _ placed) ∙ on in
      let found = sym (lookup-insert key k made gone.entries) ∙ there in
      elim (Bool-cases (key_eq key k)) [
        | inl s ↦
            let same : made ≡ e = ground arith in
            inl (
              (key_eq_iff key k).0 s,
              ap (λ (d : Entry). d.sub) same,
              ap (λ (d : Entry). d.cached) same,
              ap (λ (d : Entry). d.inserted) same,
            )
        | inr n ↦
            let old : lookup k gone.entries ≡ some e = ground arith in
            inr (tt, (kept, e, evict-before key k e c old, (refl, refl, refl)))
      ]

  pub count-From :
      (key : Key) (d : Decision) (path : Text) (ip : Option IpAddr) (id : Option Text)
      (now : Instant) (c : Cache) (k : Key) (e : Entry)
      → (Ops.count x full key d path ip id now c).0.subscribed ≡ true
      → lookup k (Ops.count x full key d path ip id now c).0.entries ≡ some e
      → From (Op.count key d path ip id now) k e c
  unfolding Ops.count count_in
  count-From key d path ip id now c k e on h = elim (Option-cases (lookup key c.entries)) [
    | inl a ↦ inr (tt, (rw (a, Ops.count) at on, e, rw (a, Ops.count) at h, (refl, refl, refl)))
    | inr (entry, a) ↦
        let now_on : c.subscribed ≡ true = rw (a, Ops.count) at on in
        let counted = count_in x full (d, ip) path id now entry in
        let h' : lookup k (insert key counted c.entries) ≡ some e = rw (a, Ops.count) at h in
        let found = sym (lookup-insert key k counted c.entries) ∙ h' in
        elim (Bool-cases (key_eq key k)) [
          | inl s ↦
              let same : counted ≡ e = ground arith in
              let there : lookup k c.entries ≡ some entry = rw (← (key_eq_iff key k).0 s) a in
              inr (
                tt,
                (
                  now_on,
                  entry,
                  there,
                  (
                    ap (λ (f : Entry). f.sub) same,
                    ap (λ (f : Entry). f.cached) same,
                    ap (λ (f : Entry). f.inserted) same,
                  ),
                ),
              )
          | inr n ↦ inr (tt, (now_on, e, ground arith, (refl, refl, refl)))
        ]
  ]
