-- ===== src/Cache/Runs.antt =====
-- backend/src/cache.rs: any sequence of the operations, from an empty cache.
use open_berat.Base.{
  ℕ, zero, suc, Bool, true, false, List, [], ◌∷◌, map, Option, some, ◌≡◌, refl, ◌∙◌, arith, ltb,
  if◌then◌else◌, Bool-cases, Option-cases, inl, inr, Text, length, ◌≤◌, ◌<◌,
}
use open_berat.Base.Assoc.{
  member, member_here, member_later, lookup_of_member, lookup, insert, lookup-insert,
  length-remove-lt,
}
use open_berat.Policy.Types.{Instant, Decision}
use open_berat.Store.Channel.{IpAddr}
use open_berat.Cache.Cookie.{Key, key_eq, key_eq_iff, key_Eq}
use open_berat.Cache.Types.{capacity, Externals, Outcome, Cached, Entry, Cache, outcome_Eq}
use open_berat.Cache.Ops.{let_go, evict, oldest, oldest_from, shrink, insert_entry, count, count_in}
use open_berat.Cache.Coherence.{
  IsCoherent, owned, let_go-IsCoherent, evict-IsCoherent, place-IsCoherent,
}
use open_berat.Cache.Effects.{evict-gone}

member_skip :
    (q k j : Key) (js : List Key) → member q (k ∷ js) ≡ true → member q (k ∷ j ∷ js) ≡ true
unfolding member
member_skip q k j js h = ground arith

module _ (x : Externals) (full : ℕ → Bool) where
  shrink-IsCoherent : (fuel : ℕ) (c : Cache) → IsCoherent c → IsCoherent (shrink x full fuel c)
  unfolding shrink
  shrink-IsCoherent zero c v = v
  shrink-IsCoherent (suc fuel) c v = elim (Bool-cases (ltb capacity (length c.entries))) [
    | inr e ↦ rw (e, shrink) v
    | inl e ↦ elim (Option-cases (oldest x full c.entries)) [
      | inl o ↦ rw (e, o, shrink) v
      | inr (key, o) ↦ elim (Option-cases (lookup key c.entries)) [
        | inl l ↦ rw (e, o, l, shrink) v
        | inr (entry, l) ↦
            rw (e, o, l, shrink)
              (shrink-IsCoherent fuel (let_go x full key entry c)
                (let_go-IsCoherent x full key entry c l v))
      ]
    ]
  ]

  pub insert_entry-IsCoherent :
      (key : Key) (sub : Text) (cached : Cached) (now : Instant) (c : Cache)
      → IsCoherent c
      → IsCoherent (insert_entry x full key sub cached now c)
  unfolding insert_entry
  insert_entry-IsCoherent key sub cached now c v = shrink-IsCoherent _ _ (
      place-IsCoherent x full key sub cached now (evict x full key c) (evict-gone x full key c)
        (evict-IsCoherent x full key c v))

  -- Counting changes no owner.
  count-owned :
      (key k : Key) (s : Text) (entry counted : Entry) (m : List (Key × Entry))
      → lookup key m ≡ some entry
      → counted.sub ≡ entry.sub
      → owned k s m ≡ owned k s (insert key counted m)
  count-owned key k s entry counted m found same = elim (Bool-cases (key_eq key k)) [
    | inr n ↦ rw (lookup-insert key k counted m, n)
    | inl e ↦ rw (lookup-insert key k counted m, e, ← (key_eq_iff key k).0 e, found, same)
  ]

  count_in-sub :
      (o : Outcome) (path : Text) (id : Option Text) (now : Instant) (entry : Entry)
      → (count_in x full o path id now entry).sub ≡ entry.sub
  unfolding count_in
  count_in-sub o path id now entry = refl

  pub count-IsCoherent :
      (key : Key) (d : Decision) (path : Text) (ip : Option IpAddr) (id : Option Text)
      (now : Instant) (c : Cache)
      → IsCoherent c
      → IsCoherent (count x full key d path ip id now c).0
  unfolding count
  count-IsCoherent key d path ip id now c v = elim (Option-cases (lookup key c.entries)) [
    | inl e ↦ rw (e, count) v
    | inr (entry, e) ↦
        rw (e, count)
          (record {
            agree = λ k s.
                v.agree k s
                ∙ count-owned key k s entry _ c.entries e (count_in-sub (d, ip) path id now entry);
            no_empty = v.no_empty;
          })
  ]

  oldest_from-older :
      (k j : Key) (i : Instant) (e : Entry) (es : List (Key × Entry)) (newer : Bool)
      → ltb e.inserted i ≡ newer
      → oldest_from x full k i ((j, e) ∷ es)
        ≡ (if newer then oldest_from x full j e.inserted es else oldest_from x full k i es)
  unfolding oldest_from
  oldest_from-older k j i e es newer h = rw h

  oldest_from-found :
      (k : Key) (i : Instant) (es : List (Key × Entry))
      → member (oldest_from x full k i es) (k ∷ map (λ e. e.0) es) ≡ true
  oldest_from-found k i [] = unfold oldest_from in member_here k []
  oldest_from-found k i ((j, e) ∷ es) = elim (Bool-cases (ltb e.inserted i)) [
    | inl older ↦
        rw (oldest_from-older k j i e es true older)
          (member_later _ k _ (oldest_from-found j e.inserted es))
    | inr newer ↦
        rw (oldest_from-older k j i e es false newer)
          (member_skip _ k j _ (oldest_from-found k i es))
  ]

  pub oldest-found :
      (es : List (Key × Entry))
      → 0 < length es
      → (key : Key) × (entry : Entry) × (oldest x full es ≡ some key) × (lookup key es ≡ some entry)
  unfolding oldest
  oldest-found [] h = absurd (omega arith)
  oldest-found ((k, e) ∷ es) h =
      let key = oldest_from x full k e.inserted es in
      let (entry, l) = lookup_of_member key ((k, e) ∷ es) (oldest_from-found k e.inserted es) in
      (key, entry, refl, l)

  pub let_go-shorter :
      (key : Key) (entry : Entry) (c : Cache) {n : ℕ}
      → lookup key c.entries ≡ some entry
      → length c.entries ≤ suc n
      → length (let_go x full key entry c).entries ≤ n
  unfolding let_go
  let_go-shorter key entry c l h = omega (arith, length-remove-lt key c.entries entry l)

  -- The loop over the bound ends below it, whatever stood in the cache.
  pub shrink-le :
      (fuel : ℕ) (c : Cache)
      → length c.entries ≤ fuel
      → length (shrink x full fuel c).entries ≤ capacity
  unfolding shrink
  shrink-le zero c h = omega arith
  shrink-le (suc fuel) c h = elim (Bool-cases (ltb capacity (length c.entries))) [
    | inr e ↦ rw (e, shrink) (ground arith)
    | inl e ↦
        let (key, entry, o, l) = oldest-found c.entries (ground arith) in
        rw (e, o, l, shrink)
          (shrink-le fuel (let_go x full key entry c) (let_go-shorter key entry c l h))
  ]

  -- After an insertion the cache holds at most `capacity` entries.
  pub insert_entry-le :
      (key : Key) (sub : Text) (cached : Cached) (now : Instant) (c : Cache)
      → length (insert_entry x full key sub cached now c).entries ≤ capacity
  unfolding insert_entry
  insert_entry-le key sub cached now c = shrink-le _ _ (omega arith)
