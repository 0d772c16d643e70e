-- ===== src/Cache/Conservation.antt =====
-- backend/src/cache.rs: no decision that the cache has counted is lost, whatever operations follow.
use mathlib.Core.List.{foldl}
use open_berat.Base.{
  ℕ, ◌+◌, ◌^◌, ◌<◌, ◌≤◌, Bool, ◌&&◌, not, List, [], ◌∷◌, Option, if◌then◌else◌, Text, length, ◌≡◌,
  inl, inr, refl, arith, Bool-cases, Option-cases,
}
use open_berat.Base.Assoc.{lookup, insert, lookup-remove_self}
use open_berat.Base.Weights.{
  Distinct, remove_absent, remove-Distinct, insert-Distinct, remove-AllValues, lookup-AllValues,
  total-remove, total-le,
}
use open_berat.Policy.Types.{Instant, Decision}
use open_berat.Store.Channel.{IpAddr, Audit}
use open_berat.Cache.Cookie.{Key, key_Eq}
use open_berat.Cache.Types.{Externals, Outcome, Counters, Entry, Cache, outcome_Eq}
use open_berat.Cache.Ops
use open_berat.Cache.Ops.{new_cache, bump, counters_at, count_in}
use open_berat.Cache.Ledger.{
  in_entry, live, recorded, ledger, IsKept, open_channel, Balanced, insert_entry-Balanced,
  evict_all-Balanced,
}
use open_berat.Cache.Reachable.{Op, apply}

-- Whether an operation is a decision that the cache counts: `count` answers `true`.
abbrev pub tally : Externals → Cache → Op → ℕ
tally x c (Op.count key d path ip id now) =
    if (Ops.count x open_channel key d path ip id now c).1 then 1 else 0
tally x c _ = 0

-- The decisions counted in a run of operations.
abbrev pub counted : Externals → Cache → List Op → ℕ
counted x c [] = 0
counted x c (op ∷ ops) = tally x c op + counted x (apply x open_channel c op) ops

module _ (x : Externals) where
  count_in-Distinct :
      (outcome : Outcome) (path : Text) (id : Option Text) (now : Instant) (entry : Entry)
      → Distinct entry.counters
      → Distinct (count_in x open_channel outcome path id now entry).counters
  unfolding count_in
  count_in-Distinct outcome path id now entry h =
      insert-Distinct outcome
        (bump x open_channel (x.hash_path path) now
          (counters_at x open_channel outcome path id now entry))
        entry.counters h

  in_entry-count_in :
      (outcome : Outcome) (path : Text) (id : Option Text) (now : Instant) (entry : Entry)
      → Distinct entry.counters
      → in_entry entry + 1 < 2 ^ 32
      → in_entry (count_in x open_channel outcome path id now entry) ≡ in_entry entry + 1
  unfolding count_in counters_at bump insert
  in_entry-count_in outcome path id now entry h k =
      elim (Option-cases (lookup outcome entry.counters)) [
        | inl e ↦ ground (arith, remove_absent outcome entry.counters e)
        | inr (old, e) ↦ ground (
          arith,
          total-remove (λ (c : Counters). c.count) outcome old entry.counters h e,
          total-le (λ (c : Counters). c.count) outcome old entry.counters e,
        )
      ]

  count-IsKept :
      (key : Key) (d : Decision) (path : Text) (ip : Option IpAddr) (id : Option Text)
      (now : Instant) (c : Cache)
      → IsKept c
      → ledger c + 1 < 2 ^ 32
      → let (c', counts) = Ops.count x open_channel key d path ip id now c in
        IsKept c' × (ledger c' ≡ ledger c + (if counts then 1 else 0))
  unfolding Ops.count insert
  count-IsKept key d path ip id now c v k = elim (Option-cases (lookup key c.entries)) [
    | inl e ↦ rw (e, Ops.count) (v, omega arith)
    | inr (entry, e) ↦
        let inner = lookup-AllValues (λ e. Distinct e.counters) key entry c.entries v.outcomes e in
        let moved = total-remove in_entry key entry c.entries v.entries e in
        rw (e, Ops.count)
          (
            record {
              entries = (lookup-remove_self key c.entries, remove-Distinct key c.entries v.entries);
              outcomes = (
                count_in-Distinct (d, ip) path id now entry inner,
                remove-AllValues (λ e. Distinct e.counters) key c.entries v.outcomes,
              );
            },
            ground (arith, in_entry-count_in (d, ip) path id now entry inner),
          )
  ]

  set_subscribed-Balanced :
      (on : Bool) (c : Cache) → IsKept c → Balanced x c (Ops.set_subscribed x open_channel on c)
  unfolding Ops.set_subscribed Ops.flush_all
  set_subscribed-Balanced on c v = elim (Bool-cases (on && not c.subscribed)) [
    | inl e ↦
        let (w, f) = evict_all-Balanced x _ c v in
        rw (e, Ops.set_subscribed) (record { entries = w.entries; outcomes = w.outcomes }, f)
    | inr e ↦
        rw (e, Ops.set_subscribed) (record { entries = v.entries; outcomes = v.outcomes }, refl)
  ]

  apply-IsKept :
      (c : Cache) (op : Op)
      → IsKept c
      → ledger c + 1 < 2 ^ 32
      → IsKept (apply x open_channel c op)
        × (ledger (apply x open_channel c op) ≡ ledger c + tally x c op)
  unfolding apply Ops.sweep Ops.drop_sub Ops.flush_all
  apply-IsKept c (Op.insert_entry key sub cached now) v k =
      let (w, e) = insert_entry-Balanced x key sub cached now c v in (w, omega (arith, e))
  apply-IsKept c (Op.count key d path ip id now) v k = count-IsKept key d path ip id now c v k
  apply-IsKept c (Op.sweep now) v k =
      let (w, e) = evict_all-Balanced x _ c v in (w, omega (arith, e))
  apply-IsKept c (Op.drop_sub sub) v k =
      let (w, e) = evict_all-Balanced x _ c v in (w, omega (arith, e))
  apply-IsKept c Op.flush_all v k = let (w, e) = evict_all-Balanced x _ c v in (w, omega (arith, e))
  apply-IsKept c (Op.set_subscribed on) v k =
      let (w, e) = set_subscribed-Balanced on c v in (w, omega (arith, e))
  apply-IsKept c (Op.evict_key key) v k =
      let (w, e) : Balanced x c (Ops.evict x open_channel key c) =
        unfold Ops.evict_all in (evict_all-Balanced x (key ∷ []) c v) in
      (w, omega (arith, e))

  tally-le : (c : Cache) (op : Op) → tally x c op ≤ 1
  tally-le c op = ground arith

  pub run-IsKept :
      (ops : List Op) (c : Cache)
      → IsKept c
      → ledger c + length ops < 2 ^ 32
      → IsKept (foldl (apply x open_channel) c ops)
        × (ledger (foldl (apply x open_channel) c ops) ≡ ledger c + counted x c ops)
  run-IsKept [] c v k = (v, omega arith)
  run-IsKept (op ∷ ops) c v k =
      let (w, e) = apply-IsKept c op v (omega arith) in
      let (u, rest) =
        run-IsKept ops (apply x open_channel c op) w (omega (arith, e, tally-le c op)) in
      (u, omega (arith, rest, e))

  -- With a channel that takes every event, and short of a wrap-around of the 32-bit counts: after any
  -- sequence of operations on a new cache, the counts in the live entries and in the events that were
  -- sent add up to the number of decisions that the cache has counted, on top of what had been sent
  -- before. Neither eviction, expiry, the kill switch, a lost subscription nor a flush loses one or sends
  -- one twice.
  pub reachable-ledger :
      (audit : Audit) (ops : List Op)
      → recorded audit.sent + length ops < 2 ^ 32
      → live (foldl (apply x open_channel) (new_cache audit) ops)
          + recorded (foldl (apply x open_channel) (new_cache audit) ops).audit.sent
        ≡ recorded audit.sent + counted x (new_cache audit) ops
  unfolding new_cache
  reachable-ledger audit ops h =
      let (v, e) =
        run-IsKept ops (new_cache audit) (record { entries = tt; outcomes = tt }) (omega arith) in
      omega (arith, e)
