-- ===== src/Admin/Failure.antt =====
-- backend/src/admin.rs: `failed`, the answer to a statement that the database refused.

-- What the driver reports: a unique constraint, or anything else.
pub data StoreError : Type 0 where
  unique_violation other : StoreError

pub data Failure : Type 0 where
  conflict service_unavailable : Failure

unfoldable pub failed : StoreError → Failure
failed unique_violation = conflict
failed other = service_unavailable
