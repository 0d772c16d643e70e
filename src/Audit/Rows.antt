-- ===== src/Audit/Rows.antt =====
-- backend/src/audit.rs: the audit list (`list_audit`), its filters, its cursor and its cap. The statement
-- that it binds is written out over the rows of the table.
use open_berat.Base.{
  ℕ, Bool, true, false, ◌&&◌, ◌||◌, not, List, filter, take, Option, none, some, if◌then◌else◌, ltb,
  leb, ◌==◌, Result, ok, err, Text, text_eq, codes, ◌≡◌, ◌≢◌, ◌≤◌, refl, arith, Bool-cases, inl,
  inr,
}
use open_berat.Base.Sorting.{IsOrder, sort}
use open_berat.Policy.Types.{Instant}
use open_berat.Admin.Failure.{StoreError, Failure, failed}
use open_berat.Store.Channel.{Uuid, IpAddr}

pub record AuditRow : Type 0 where
  pub id : Uuid
  pub ts : Instant
  pub actor_sub : Text
  pub actor_name : Option Text
  pub application_id : Option Uuid
  pub application_slug : Text
  pub decision : Text
  pub reason : Text
  pub count : ℕ
  pub first_seen : Instant
  pub last_seen : Instant
  pub distinct_path : ℕ
  pub first_path : Text
  pub src_ip : Option IpAddr
  pub request_id : Option Text

pub data AuditDecision : Type 0 where
  allow deny : AuditDecision

-- An `i64`; `negsuc n` is -(n + 1).
pub data ℤ : Type 0 where
  pos negsuc : ℕ → ℤ

pub record AuditQuery : Type 0 where
  pub actor : Option Text
  pub app : Option Text
  pub decision : Option AuditDecision
  pub reason : Option Text
  pub since : Option Instant
  pub until : Option Instant
  pub before_ts : Option Instant
  pub before_id : Option Uuid
  pub limit : Option ℤ

-- `limit.unwrap_or(100).clamp(1, 1000)`
unfoldable pub clamp : ℕ → ℕ → ℤ → ℕ
clamp low high (pos n) = if ltb n low then low else if ltb high n then high else n
clamp low high (negsuc n) = low

unfoldable pub page_limit : Option ℤ → ℕ
page_limit none = clamp 1 1000 (pos 100)
page_limit (some limit) = clamp 1 1000 limit

unfoldable pub decision_name : AuditDecision → Text
decision_name AuditDecision.allow = codes "allow"
decision_name AuditDecision.deny = codes "deny"

-- `$n is null or …`
abbrev pub or_null {ℓ} : {A : Type ℓ} → Option A → (A → Bool) → Bool
or_null none p = true
or_null (some a) p = p a

-- A comparison with a column that may be null.
abbrev pub is_some_text : Option Text → Text → Bool
is_some_text none t = false
is_some_text (some s) t = text_eq s t

-- `(ts, id) < ($7, $8)`
unfoldable pub precedes : Instant → Uuid → AuditRow → Bool
precedes ts id row = ltb row.ts ts || (row.ts == ts && ltb row.id id)

-- `order by ts desc, id desc`
unfoldable pub newer : AuditRow → AuditRow → Bool
newer r s = precedes r.ts r.id s

abbrev pub is_some {ℓ} : {A : Type ℓ} → Option A → Bool
is_some none = false
is_some (some a) = true

-- The conditions of the statement, but for the cursor.
unfoldable pub wanted : AuditQuery → AuditRow → Bool
wanted q row =
    or_null q.actor (λ a. text_eq row.actor_sub a || is_some_text row.actor_name a)
    && (or_null q.app (λ a. text_eq row.application_slug a)
        && (or_null q.decision (λ d. text_eq row.decision (decision_name d))
            && (or_null q.reason (λ r. text_eq row.reason r)
                && (or_null q.since (λ t. leb t row.ts) && or_null q.until (λ t. ltb row.ts t)))))

-- The cursor: `$8` is bound whenever `$7` is.
unfoldable pub past : AuditQuery → AuditRow → Bool
past q row = elim q.before_ts [
  | none ↦ true
  | some ts ↦ elim q.before_id [ none ↦ false | some id ↦ precedes ts id row ]
]

unfoldable pub select_rows : AuditQuery → List AuditRow → List AuditRow
select_rows q table =
    take (page_limit q.limit) (sort newer (filter (λ row. past q row && wanted q row) table))

pub data AuditAnswer : Type 0 where
  bad_request : AuditAnswer
  failure : Failure → AuditAnswer
  listed : List AuditRow → AuditAnswer

-- `table` is the record, or what the store answers instead.
unfoldable pub list_audit : AuditQuery → Result StoreError (List AuditRow) → AuditAnswer
list_audit q table =
    if not (is_some q.before_ts && is_some q.before_id)
      && (is_some q.before_ts || is_some q.before_id)
    then bad_request
    else elim table [ err e ↦ failure (failed e) | ok rows ↦ listed (select_rows q rows) ]

-- The order of the list, newest first.
pub newer-IsOrder : IsOrder newer
unfolding newer precedes
newer-IsOrder = record { asym = λ a b h. ground arith; co_trans = λ a b c h k. ground arith }

-- The primary key of the table.
abbrev pub key : AuditRow → Uuid × Instant
key r = (r.id, r.ts)

pub newer-total : (r s : AuditRow) → newer s r ≡ false → key s ≢ key r → newer r s ≡ true
unfolding newer precedes
newer-total r s h n = elim (Bool-cases (s.id == r.id && s.ts == r.ts)) [
  | inl e ↦ absurd (n (tie (ground arith) (ground arith)))
  | inr e ↦ ground arith
]
  where
    tie : s.id ≡ r.id → s.ts ≡ r.ts → key s ≡ key r
    tie e f = rw (e, f) refl

pub page_limit-bounds : (limit : Option ℤ) → (1 ≤ page_limit limit) × (page_limit limit ≤ 1000)
unfolding page_limit clamp
page_limit-bounds limit = ground arith
