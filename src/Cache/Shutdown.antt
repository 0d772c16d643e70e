-- ===== src/Cache/Shutdown.antt =====
-- backend/src/main.rs over backend/src/cache.rs and backend/src/store.rs: what is in the audit table at the end.
use mathlib.Core.List.{foldl}
use open_berat.Base.{
  ℕ, suc, ◌+◌, ◌<◌, ◌^◌, ◌%◌, List, [], ◌∷◌, ◌++◌, map, none, some, length, ◌≡◌, refl, arith,
  Option-cases, inl, inr,
}
use open_berat.Policy.Types.{Instant}
use open_berat.Store.Channel.{Uuid, AuditEvent, Audit}
use open_berat.Store.Writer.{Database, audit_row, write_audit, shut_down}
use open_berat.Audit.Rows.{AuditRow}
use open_berat.Cache.Types.{Externals, Cache}
use open_berat.Cache.Ops
use open_berat.Cache.Ops.{new_cache}
use open_berat.Cache.Effects.{flush_all-entries}
use open_berat.Cache.Reachable.{Op, apply}
use open_berat.Cache.Ledger.{live, recorded, open_channel, evict_all-Balanced}
use open_berat.Cache.Conservation.{counted, run-IsKept}

-- The decisions that the rows of the table stand for.
abbrev pub in_rows : List AuditRow → ℕ
in_rows [] = 0
in_rows (r ∷ rows) = r.count + in_rows rows

-- The decisions of the events whose statement fails.
abbrev pub lost : Database → (i : ℕ) → List AuditEvent → ℕ
lost database i [] = 0
lost database i (event ∷ queue) = elim (database i) [
  | none ↦ event.count + lost database (suc i) queue
  | some p ↦ lost database (suc i) queue
]

in_rows-append : (rs ss : List AuditRow) → in_rows (rs ++ ss) ≡ in_rows rs + in_rows ss
in_rows-append [] ss = omega arith
in_rows-append (r ∷ rs) ss = ground (arith, in_rows-append rs ss)

audit_row-count :
    (id : Uuid) (ts : Instant) (event : AuditEvent) → (audit_row id ts event).count ≡ event.count
unfolding audit_row
audit_row-count id ts event = refl

write_audit-in_rows :
    (database : Database) (i : ℕ) (queue : List AuditEvent) (rows : List AuditRow) (dropped : ℕ)
    → in_rows (write_audit database i queue (rows, dropped)).0 + lost database i queue
      ≡ in_rows rows + recorded queue
unfolding write_audit
write_audit-in_rows database i [] rows dropped = omega arith
write_audit-in_rows database i (event ∷ queue) rows dropped = elim (Option-cases (database i)) [
  | inl e ↦ ground (arith, write_audit-in_rows database (suc i) queue rows ((dropped + 1) % 2 ^ 64))
  | inr ((id, ts), e) ↦ ground (
    arith,
    write_audit-in_rows database (suc i) queue (rows ++ audit_row id ts event ∷ []) dropped,
    in_rows-append rows (audit_row id ts event ∷ []),
    audit_row-count id ts event,
  )
]

module _ (x : Externals) where
  live-flush_all : (c : Cache) → live (Ops.flush_all x open_channel c) ≡ 0
  live-flush_all c = rw (flush_all-entries x open_channel c) refl

  -- With a channel that takes every event, short of a wrap-around of the 32-bit counts, and a writer that
  -- finishes: after any sequence of operations on the cache of a new instance, the rows that the shutdown leaves in
  -- the audit table stand for exactly the decisions that the cache has counted, but for those of the events
  -- whose statement failed.
  pub shut_down_lem :
      (ops : List Op) (database : Database) (audit : Audit)
      → audit.sent ≡ []
      → length ops < 2 ^ 32
      → in_rows
            (shut_down x open_channel database
              (foldl (apply x open_channel) (new_cache audit) ops)).0
          + lost database 0
              (Ops.flush_all x open_channel
                (foldl (apply x open_channel) (new_cache audit) ops)).audit.sent
        ≡ counted x (new_cache audit) ops
  unfolding shut_down new_cache Ops.flush_all
  shut_down_lem ops database audit none_sent h =
      let c = foldl (apply x open_channel) (new_cache audit) ops in
      let start : recorded audit.sent ≡ 0 = rw none_sent refl in
      let (v, e) =
        run-IsKept x ops (new_cache audit) (record { entries = tt; outcomes = tt })
          (omega (arith, start)) in
      let (w, f) = evict_all-Balanced x (map (λ e. e.0) c.entries) c v in
      omega (
        arith,
        e,
        f,
        start,
        live-flush_all c,
        write_audit-in_rows database 0 (Ops.flush_all x open_channel c).audit.sent []
            (Ops.flush_all x open_channel c).audit.dropped,
      )
