-- ===== src/Store/Channel.antt =====
-- backend/src/store.rs: an audit event, and `Audit::record`, which never waits.
use open_berat.Base.{ℕ, ◌+◌, ◌%◌, ◌^◌, Bool, List, [], ◌∷◌, ◌++◌, Option, Text, if◌then◌else◌}
use open_berat.Policy.Types.{Instant, Decision}

-- A `Uuid` and an `IpAddr` are only ever compared here: they are numbers.
abbrev pub Uuid : Type 0
Uuid = ℕ

abbrev pub IpAddr : Type 0
IpAddr = ℕ

pub record AuditEvent : Type 0 where
  pub application_id : Option Uuid
  pub application_slug : Text
  pub actor_sub : Text
  pub actor_name : Option Text
  pub decision : Decision
  pub count : ℕ
  pub first_seen : Instant
  pub last_seen : Instant
  pub distinct_path : ℕ
  pub first_path : Text
  pub src_ip : Option IpAddr
  pub request_id : Option Text

-- The sending half of the channel: the events that it took, in order, the number of attempts, and
-- the global `AUDIT_DROPPED`.
pub record Audit : Type 0 where
  pub sent : List AuditEvent
  pub attempts : ℕ
  pub dropped : ℕ

-- `try_send` is the channel's own: `full n` says whether it refuses the n-th attempt.
unfoldable pub record_event : (full : ℕ → Bool) → AuditEvent → Audit → Audit
record_event full event audit =
    if full audit.attempts
    then record audit { attempts = audit.attempts + 1; dropped = (audit.dropped + 1) % 2 ^ 64 }
    else record audit { attempts = audit.attempts + 1; sent = audit.sent ++ event ∷ [] }
