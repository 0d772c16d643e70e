-- ===== src/Cache/Reachable.antt =====
-- backend/src/cache.rs: what holds of a cache after any sequence of its operations.
use mathlib.Core.List.{foldl}
use open_berat.Base.{
  ℕ, Bool, true, false, List, [], ◌∷◌, Option, ◌≡◌, ◌≢◌, ◌≤◌, refl, ap, ◌∙◌, ◌&&◌, not,
  if◌then◌else◌, arith, Text, length, All, Option-cases, inl, inr, text_eq_refl,
}
use open_berat.Base.Assoc.{lookup, insert, length-remove-le, length-remove-lt, member, text_Eq}
use open_berat.Policy.Types.{Instant, Decision}
use open_berat.Store.Channel.{IpAddr, Audit}
use open_berat.Cache.Cookie.{Key, key_Eq}
use open_berat.Cache.Types.{capacity, Externals, Cached, Cache}
use open_berat.Cache.Ops
use open_berat.Cache.Ops.{new_cache, evict, evict_all, let_go, or_none}
use open_berat.Cache.Coherence.{IsCoherent, evict_all-IsCoherent, owns}
use open_berat.Cache.Effects.{flush_all-entries}
use open_berat.Cache.Runs.{insert_entry-IsCoherent, count-IsCoherent, insert_entry-le}

-- The operations. `sweep`, `drop_sub` and `flush_all` are also there one eviction at a time (`evict_key`), as the
-- source takes the mutex, so that a history may have other operations between two of their evictions.
pub data Op : Type 0 where
  insert_entry : Key → (sub : Text) → Cached → Instant → Op
  count : Key → Decision → (path : Text) → Option IpAddr → Option Text → Instant → Op
  sweep : Instant → Op
  drop_sub : (sub : Text) → Op
  flush_all : Op
  set_subscribed : Bool → Op
  evict_key : Key → Op

module _ (x : Externals) (full : ℕ → Bool) where
  unfoldable pub apply : Cache → Op → Cache
  apply c (insert_entry key sub cached now) = Ops.insert_entry x full key sub cached now c
  apply c (count key d path ip id now) = (Ops.count x full key d path ip id now c).0
  apply c (sweep now) = Ops.sweep x full now c
  apply c (drop_sub sub) = Ops.drop_sub x full sub c
  apply c flush_all = Ops.flush_all x full c
  apply c (set_subscribed live) = Ops.set_subscribed x full live c
  apply c (evict_key key) = evict x full key c

  -- The two maps agree, and the bound holds.
  pub record IsValid (c : Cache) : Type 0 where
    pub coherent : IsCoherent c
    pub bounded : length c.entries ≤ capacity

  evict-le : (key : Key) (c : Cache) → length (evict x full key c).entries ≤ length c.entries
  unfolding evict let_go
  evict-le key c = ground (arith, length-remove-le key c.entries)

  evict_all-le :
      (keys : List Key) (c : Cache) → length (evict_all x full keys c).entries ≤ length c.entries
  unfolding evict_all
  evict_all-le [] c = omega arith
  evict_all-le (key ∷ keys) c =
      omega (arith, evict-le key c, evict_all-le keys (evict x full key c))

  evict_all-IsValid : (keys : List Key) (c : Cache) → IsValid c → IsValid (evict_all x full keys c)
  evict_all-IsValid keys c v = record {
    coherent = evict_all-IsCoherent x full keys c v.coherent;
    bounded = omega (arith, evict_all-le keys c);
  }

  count-le :
      (key : Key) (d : Decision) (path : Text) (ip : Option IpAddr) (id : Option Text)
      (now : Instant) (c : Cache)
      → length (Ops.count x full key d path ip id now c).0.entries ≤ length c.entries
  unfolding Ops.count insert
  count-le key d path ip id now c = elim (Option-cases (lookup key c.entries)) [
    | inl e ↦ rw (e, Ops.count) (omega arith)
    | inr (entry, e) ↦ rw (e, Ops.count) (omega (arith, length-remove-lt key c.entries entry e))
  ]

  either : (b : Bool) (c d : Cache) → IsValid c → IsValid d → IsValid (if b then c else d)
  either true c d v w = v
  either false c d v w = w

  flagged : (live : Bool) (c : Cache) → IsValid c → IsValid (record c { subscribed = live })
  flagged live c v = record {
    coherent = record { agree = v.coherent.agree; no_empty = v.coherent.no_empty };
    bounded = v.bounded;
  }

  set_subscribed-IsValid :
      (live : Bool) (c : Cache) → IsValid c → IsValid (Ops.set_subscribed x full live c)
  unfolding Ops.set_subscribed Ops.flush_all
  set_subscribed-IsValid live c v =
      flagged live _ (either (live && not c.subscribed) _ c (evict_all-IsValid _ c v) v)

  -- Every operation keeps a cache valid.
  pub apply-IsValid : (c : Cache) (op : Op) → IsValid c → IsValid (apply c op)
  unfolding apply Ops.sweep Ops.drop_sub Ops.flush_all
  apply-IsValid c (insert_entry key sub cached now) v = record {
    coherent = insert_entry-IsCoherent x full key sub cached now c v.coherent;
    bounded = insert_entry-le x full key sub cached now c;
  }
  apply-IsValid c (count key d path ip id now) v = record {
    coherent = count-IsCoherent x full key d path ip id now c v.coherent;
    bounded = omega (arith, count-le key d path ip id now c);
  }
  apply-IsValid c (sweep now) v = evict_all-IsValid _ c v
  apply-IsValid c (drop_sub sub) v = evict_all-IsValid _ c v
  apply-IsValid c flush_all v = evict_all-IsValid _ c v
  apply-IsValid c (set_subscribed live) v = set_subscribed-IsValid live c v
  apply-IsValid c (evict_key key) v = unfold evict_all in (evict_all-IsValid (key ∷ []) c v)

  apply_all-IsValid : (ops : List Op) (c : Cache) → IsValid c → IsValid (foldl apply c ops)
  apply_all-IsValid [] c v = v
  apply_all-IsValid (op ∷ ops) c v = apply_all-IsValid ops (apply c op) (apply-IsValid c op v)

  pub new_cache-IsValid : (audit : Audit) → IsValid (new_cache audit)
  unfolding new_cache lookup member
  new_cache-IsValid audit = record {
    coherent = record { agree = λ k s. refl; no_empty = tt };
    bounded = omega arith;
  }

  -- After any sequence of operations on a new cache, the index of subjects lists exactly the keys of
  -- the live entries under their owners, holds no subject without a key, and the cache is within its
  -- bound.
  pub reachable-IsValid :
      (audit : Audit) (ops : List Op) → IsValid (foldl apply (new_cache audit) ops)
  reachable-IsValid audit ops = apply_all-IsValid ops (new_cache audit) (new_cache-IsValid audit)

  no_keys :
      (m : List (Text × List Key))
      → All (λ p. p.1 ≢ []) m
      → ((k : Key) (s : Text) → member k (or_none (lookup s m)) ≡ false)
      → m ≡ []
  unfolding lookup member
  no_keys [] h f = refl
  no_keys ((s, []) ∷ m) (n, h) f = absurd (n refl)
  no_keys ((s, k ∷ ks) ∷ m) (n, h) f =
      absurd (ground (arith, f k s, text_eq_refl s, text_eq_refl k.cookie, text_eq_refl k.slug))

  by_sub-eq_nil : (c : Cache) → IsCoherent c → c.entries ≡ [] → c.by_sub ≡ []
  unfolding lookup
  by_sub-eq_nil c v e =
      no_keys c.by_sub v.no_empty (λ k s. v.agree k s ∙ ap (λ es. owns (lookup k es) s) e)

  -- A cache whose two maps agree holds nothing once it is flushed, in neither of them.
  pub flush_all-empty :
      (c : Cache)
      → IsCoherent c
      → ((Ops.flush_all x full c).entries ≡ []) × ((Ops.flush_all x full c).by_sub ≡ [])
  unfolding Ops.flush_all
  flush_all-empty c v = (
    flush_all-entries x full c,
    by_sub-eq_nil _ (evict_all-IsCoherent x full _ c v) (flush_all-entries x full c),
  )
