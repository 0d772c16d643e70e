-- ===== src/Admin.antt =====
-- backend/src/admin.rs: the management plane. `Guard` stands before every handler, `Reset` removes a
-- second factor, `Applications` and `Entitlements` write the two tables. `Failure` has the errors that
-- the handlers answer, `Writes` the sequences of writes, `Integrity` the two tables together, and
-- `Plane` the way from the guard to the rows.
pub mod Failure
pub mod Guard
pub mod Reset
pub mod Applications
pub mod Entitlements
pub mod Writes
pub mod Integrity
pub mod Plane
