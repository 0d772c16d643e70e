-- ===== src/Cache/Effects.antt =====
-- backend/src/cache.rs: which entries leave, and that the others stay.
use open_berat.Base.{
  ℕ, Bool, true, false, List, [], ◌∷◌, map, none, some, ◌≡◌, refl, ap, ◌∙◌, arith, if◌then◌else◌,
  ◌<◌, ◌-◌, Bool-cases, Option-cases, inl, inr, Text, text_eq_refl,
}
use open_berat.Base.Assoc.{lookup, member, lookup-remove, eq-nil_of_lookup, lookup-keys, text_Eq}
use open_berat.Policy.Types.{Instant}
use open_berat.Cache.Cookie.{Key, key_eq, key_eq_iff, key_Eq}
use open_berat.Cache.Types.{Externals, Cached, Entry, Cache, ttl}
use open_berat.Cache.Ops.{
  or_none, let_go, evict, evict_all, drop_sub, flush_all, set_subscribed, get,
}
use open_berat.Cache.Coherence.{IsCoherent, owned}

module _ (x : Externals) (full : ℕ → Bool) where
  pub evict-lookup :
      (key k : Key) (c : Cache)
      → lookup k (evict x full key c).entries ≡ (if key_eq key k then none else lookup k c.entries)
  unfolding evict let_go
  evict-lookup key k c = elim (Option-cases (lookup key c.entries)) [
    | inr (entry, e) ↦ rw (e, evict) (lookup-remove key k c.entries)
    | inl e ↦
        rw (e, evict)
          (elim (Bool-cases (key_eq key k)) [
            | inr n ↦ rw n
            | inl s ↦ rw (s, ← (key_eq_iff key k).0 s, e)
          ])
  ]

  pub evict-gone : (key : Key) (c : Cache) → lookup key (evict x full key c).entries ≡ none
  evict-gone key c =
      ground (arith, evict-lookup key key c, text_eq_refl key.cookie, text_eq_refl key.slug)

  pub evict_all-lookup :
      (keys : List Key) (k : Key) (c : Cache)
      → lookup k (evict_all x full keys c).entries
        ≡ (if member k keys then none else lookup k c.entries)
  unfolding evict_all member
  evict_all-lookup [] k c = refl
  evict_all-lookup (key ∷ keys) k c =
      evict_all-lookup keys k (evict x full key c) ∙ ground (arith, evict-lookup key k c)

  pub evict-subscribed : (key : Key) (c : Cache) → (evict x full key c).subscribed ≡ c.subscribed
  unfolding evict let_go
  evict-subscribed key c = ground arith

  pub evict_all-subscribed :
      (keys : List Key) (c : Cache) → (evict_all x full keys c).subscribed ≡ c.subscribed
  unfolding evict_all
  evict_all-subscribed [] c = refl
  evict_all-subscribed (key ∷ keys) c =
      evict_all-subscribed keys (evict x full key c) ∙ evict-subscribed key c

  pub drop_sub-lookup :
      (sub : Text) (k : Key) (c : Cache)
      → IsCoherent c
      → lookup k (drop_sub x full sub c).entries
        ≡ (if owned k sub c.entries then none else lookup k c.entries)
  unfolding drop_sub
  drop_sub-lookup sub k c v =
      evict_all-lookup (or_none (lookup sub c.by_sub)) k c
      ∙ ap (λ b. if b then none else lookup k c.entries) (v.agree k sub)

  pub drop_sub-subscribed :
      (sub : Text) (c : Cache) → (drop_sub x full sub c).subscribed ≡ c.subscribed
  unfolding drop_sub
  drop_sub-subscribed sub c = evict_all-subscribed _ c

  -- The kill switch and logout, in a cache whose two maps agree: after `drop_sub` no entry of the
  -- subject is served, and every other subject is served as before.
  pub get-drop_sub :
      (sub : Text) (k : Key) (now : Instant) (c : Cache)
      → IsCoherent c
      → get x full k now (drop_sub x full sub c)
        ≡ (if owned k sub c.entries then none else get x full k now c)
  unfolding get
  get-drop_sub sub k now c v =
      rw (drop_sub-subscribed sub c, drop_sub-lookup sub k c v)
        (elim (Bool-cases (owned k sub c.entries)) [
          | inl o ↦ rw o (ground arith)
          | inr o ↦ rw o refl
        ])

  pub flush_all-entries : (c : Cache) → (flush_all x full c).entries ≡ []
  unfolding flush_all
  flush_all-entries c =
      let keys = map (λ (e : Key × Entry). e.0) c.entries in
      eq-nil_of_lookup _ λ k. elim (Bool-cases (member k keys)) [
        | inl m ↦ evict_all-lookup keys k c ∙ rw m refl
        | inr m ↦ evict_all-lookup keys k c ∙ rw m (lookup-keys k c.entries m)
      ]

  pub set_subscribed-entries :
      (c : Cache) → c.subscribed ≡ false → (set_subscribed x full true c).entries ≡ []
  unfolding set_subscribed
  set_subscribed-entries c off = simp off (flush_all-entries c)

  -- When a subscription comes back after there was none, the cache serves nothing from before.
  pub get-set_subscribed-true :
      (k : Key) (now : Instant) (c : Cache)
      → c.subscribed ≡ false
      → get x full k now (set_subscribed x full true c) ≡ none
  unfolding get lookup
  get-set_subscribed-true k now c off = rw (set_subscribed-entries c off) (ground arith)

  -- While there is no subscription nothing is served.
  pub get-set_subscribed-false :
      (k : Key) (now : Instant) (c : Cache)
      → get x full k now (set_subscribed x full false c) ≡ none
  unfolding get set_subscribed
  get-set_subscribed-false k now c = refl

  -- What is served is the live entry of the key, less than a time to live old, under a subscription.
  pub get-eq_some :
      (k : Key) (now : Instant) (c : Cache) {cached : Cached}
      → get x full k now c ≡ some cached
      → (c.subscribed ≡ true)
        × (entry : Entry) × (lookup k c.entries ≡ some entry)
        × (entry.cached ≡ cached)
        × (now - entry.inserted < ttl)
  unfolding get
  get-eq_some k now c h = elim (Option-cases (lookup k c.entries)) [
    | inl e ↦ absurd (ground arith)
    | inr (entry, e) ↦ (ground arith, entry, e, ground arith, ground arith)
  ]
