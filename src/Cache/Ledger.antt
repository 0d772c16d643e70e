-- ===== src/Cache/Ledger.antt =====
-- backend/src/cache.rs: the ledger of the counted decisions. Each operation moves counts between the live
-- entries and the audit channel and loses none.
use open_berat.Base.{
  ℕ, zero, suc, ◌+◌, Bool, false, List, [], ◌∷◌, ◌++◌, map, none, some, Text, length, ◌≡◌, inl, inr,
  refl, ◌∙◌, arith, Bool-cases, Option-cases, ltb,
}
use open_berat.Base.Assoc.{lookup, insert, lookup-remove_self}
use open_berat.Base.Weights
use open_berat.Base.Weights.{
  Distinct, AllValues, remove_absent, remove-Distinct, insert-Distinct, remove-AllValues,
  lookup-AllValues, total-remove, total-insert, total-le,
}
use open_berat.Policy.Types.{Instant}
use open_berat.Store.Channel.{AuditEvent, Audit, record_event}
use open_berat.Cache.Cookie.{Key, key_Eq}
use open_berat.Cache.Types.{
  Externals, Cached, Outcome, Counters, Entry, Cache, outcome_Eq, capacity,
}
use open_berat.Cache.Ops
use open_berat.Cache.Ops.{
  summary, record_all, flush, let_go, evict, evict_all, oldest, shrink, place, bump, counters_at,
  count_in,
}

-- The decisions in the live totals of an entry, in all entries, and in the events that were sent.
abbrev pub in_entry : Entry → ℕ
in_entry entry = Weights.total (λ c. c.count) entry.counters

abbrev pub live : Cache → ℕ
live c = Weights.total in_entry c.entries

abbrev pub recorded : List AuditEvent → ℕ
recorded [] = 0
recorded (event ∷ events) = event.count + recorded events

abbrev pub ledger : Cache → ℕ
ledger c = live c + recorded c.audit.sent

-- No key stands twice among the entries, and no outcome twice in an entry.
pub record IsKept (c : Cache) : Type 0 where
  pub entries : Distinct c.entries
  pub outcomes : AllValues (λ e. Distinct e.counters) c.entries

-- A channel that takes every event.
abbrev pub open_channel : ℕ → Bool
open_channel n = false

recorded-append : (xs ys : List AuditEvent) → recorded (xs ++ ys) ≡ recorded xs + recorded ys
recorded-append [] ys = omega arith
recorded-append (x ∷ xs) ys = ground (arith, recorded-append xs ys)

module _ (x : Externals) where
  recorded-record_event :
      (event : AuditEvent) (audit : Audit)
      → recorded (record_event open_channel event audit).sent ≡ recorded audit.sent + event.count
  unfolding record_event
  recorded-record_event event audit = ground (arith, recorded-append audit.sent (event ∷ []))

  recorded-flush :
      (entry : Entry) (counters : List (Outcome × Counters)) (audit : Audit)
      → recorded
          (record_all x open_channel (map (summary x open_channel entry) counters) audit).sent
        ≡ recorded audit.sent + Weights.total (λ c. c.count) counters
  unfolding record_all summary
  recorded-flush entry [] audit = omega arith
  recorded-flush entry ((outcome, c) ∷ counters) audit =
      let event = summary x open_channel entry (outcome, c) in
      ground (
        arith,
        recorded-flush entry counters (record_event open_channel event audit),
        recorded-record_event event audit,
      )

  -- What keeps the ledger: it keeps the keys apart, and every count.
  abbrev pub Balanced : Cache → Cache → Type 0
  Balanced c d = IsKept d × (ledger d ≡ ledger c)

  let_go-Balanced :
      (key : Key) (entry : Entry) (c : Cache)
      → IsKept c
      → lookup key c.entries ≡ some entry
      → Balanced c (let_go x open_channel key entry c)
  unfolding let_go flush
  let_go-Balanced key entry c v h = (
    record {
      entries = remove-Distinct key c.entries v.entries;
      outcomes = remove-AllValues (λ e. Distinct e.counters) key c.entries v.outcomes;
    },
    ground (
      arith,
      recorded-flush entry entry.counters c.audit,
      total-remove in_entry key entry c.entries v.entries h,
    ),
  )

  evict-Balanced : (key : Key) (c : Cache) → IsKept c → Balanced c (evict x open_channel key c)
  unfolding evict
  evict-Balanced key c v = elim (Option-cases (lookup key c.entries)) [
    | inl e ↦ rw (e, evict) (v, refl)
    | inr (entry, e) ↦ rw (e, evict) (let_go-Balanced key entry c v e)
  ]

  pub evict_all-Balanced :
      (keys : List Key) (c : Cache) → IsKept c → Balanced c (evict_all x open_channel keys c)
  unfolding evict_all
  evict_all-Balanced [] c v = (v, refl)
  evict_all-Balanced (key ∷ keys) c v =
      let (w, e) = evict-Balanced key c v in
      let (u, f) = evict_all-Balanced keys (evict x open_channel key c) w in (u, f ∙ e)

  shrink-Balanced : (fuel : ℕ) (c : Cache) → IsKept c → Balanced c (shrink x open_channel fuel c)
  unfolding shrink
  shrink-Balanced zero c v = (v, refl)
  shrink-Balanced (suc fuel) c v = elim (Bool-cases (ltb capacity (length c.entries))) [
    | inr e ↦ rw (e, shrink) (v, refl)
    | inl e ↦ elim (Option-cases (oldest x open_channel c.entries)) [
      | inl f ↦ rw (e, f, shrink) (v, refl)
      | inr (key, f) ↦ elim (Option-cases (lookup key c.entries)) [
        | inl g ↦ rw (e, f, g, shrink) (v, refl)
        | inr (entry, g) ↦
            let (w, i) = let_go-Balanced key entry c v g in
            let (u, j) = shrink-Balanced fuel (let_go x open_channel key entry c) w in
            rw (e, f, g, shrink) (u, j ∙ i)
      ]
    ]
  ]

  evict-absent : (key : Key) (c : Cache) → lookup key (evict x open_channel key c).entries ≡ none
  unfolding evict let_go
  evict-absent key c = elim (Option-cases (lookup key c.entries)) [
    | inl e ↦ rw (e, evict) e
    | inr (entry, e) ↦ rw (e, evict) (lookup-remove_self key c.entries)
  ]

  place-Balanced :
      (key : Key) (sub : Text) (cached : Cached) (now : Instant) (c : Cache)
      → IsKept c
      → lookup key c.entries ≡ none
      → Balanced c (place x open_channel key sub cached now c)
  unfolding place insert
  place-Balanced key sub cached now c v h = (
    record {
      entries = (lookup-remove_self key c.entries, remove-Distinct key c.entries v.entries);
      outcomes = (tt, remove-AllValues (λ e. Distinct e.counters) key c.entries v.outcomes);
    },
    ground (arith, remove_absent key c.entries h),
  )

  pub insert_entry-Balanced :
      (key : Key) (sub : Text) (cached : Cached) (now : Instant) (c : Cache)
      → IsKept c
      → Balanced c (Ops.insert_entry x open_channel key sub cached now c)
  unfolding Ops.insert_entry
  insert_entry-Balanced key sub cached now c v =
      let (w, e) = evict-Balanced key c v in
      let (u, f) =
        place-Balanced key sub cached now (evict x open_channel key c) w (evict-absent key c) in
      let (t, g) = shrink-Balanced _ _ u in (t, g ∙ f ∙ e)
