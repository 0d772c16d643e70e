-- ===== src/Audit.antt =====
-- backend/src/audit.rs, the admin screens that only read: `Rows` lists the audit record, `Paging` walks its
-- pages, `Sessions` has who is signed in, and `Screen` why a decision came out the way it did.
pub mod Rows
pub mod Paging
pub mod Sessions
pub mod SignedIn
pub mod Screen
pub mod Explained
