-- ===== src/Store.antt =====
-- backend/src/store.rs: `Channel` has the audit events and the channel that takes them, `Portal` the fold
-- of the rows of the portal's query, `Tables` and `Queries` the rows and the queries on them, and
-- `Writer` the task that empties the channel.
pub mod Channel
pub mod Portal
pub mod Tables
pub mod Queries
pub mod Arranged
pub mod Writer
