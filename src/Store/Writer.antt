-- ===== src/Store/Writer.antt =====
-- backend/src/store.rs: `write_audit`, the other end of the audit channel; and the shutdown of
-- backend/src/main.rs, which flushes the cache into the channel and waits for the writer.
use open_berat.Base.{ℕ, suc, ◌+◌, ◌%◌, ◌^◌, List, [], ◌∷◌, ◌++◌, Option, none, some, Bool}
use open_berat.Policy.Types.{Instant, as_pair}
use open_berat.Store.Channel.{Uuid, AuditEvent}
use open_berat.Audit.Rows.{AuditRow}
use open_berat.Cache.Types.{Externals, Cache}
use open_berat.Cache.Ops.{flush_all}

-- The row of an event, with the id and the time that the database gives it.
unfoldable pub audit_row : Uuid → Instant → AuditEvent → AuditRow
audit_row id ts event =
    let (decision, reason) = as_pair event.decision in
    record {
      id = id;
      ts = ts;
      actor_sub = event.actor_sub;
      actor_name = event.actor_name;
      application_id = event.application_id;
      application_slug = event.application_slug;
      decision = decision;
      reason = reason;
      count = event.count;
      first_seen = event.first_seen;
      last_seen = event.last_seen;
      distinct_path = event.distinct_path;
      first_path = event.first_path;
      src_ip = event.src_ip;
      request_id = event.request_id;
    }

-- The database: the id and the time of the i-th row, or none where the statement fails.
abbrev pub Database : Type 0
Database = ℕ → Option (Uuid × Instant)

-- The table, and `AUDIT_DROPPED`.
abbrev pub Written : Type 0
Written = List AuditRow × ℕ

unfoldable pub write_audit : Database → (i : ℕ) → List AuditEvent → Written → Written
write_audit database i [] written = written
write_audit database i (event ∷ queue) (rows, dropped) = elim (database i) [
  | none ↦ write_audit database (suc i) queue (rows, (dropped + 1) % 2 ^ 64)
  | some (id, ts) ↦ write_audit database (suc i) queue (rows ++ audit_row id ts event ∷ [], dropped)
]

-- The end of `main`: the writer has drained the channel behind the flush, all that was ever sent.
unfoldable pub shut_down : Externals → (full : ℕ → Bool) → Database → Cache → Written
shut_down x full database c =
    let flushed = flush_all x full c in
    write_audit database 0 flushed.audit.sent ([], flushed.audit.dropped)
