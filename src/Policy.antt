-- ===== src/Policy.antt =====
-- backend/src/policy.rs, the authorisation decision: `Types` has its data, `Uri` what it makes of a
-- request URI, `Rules` the rules and the verdict, `Groups` the management plane's guards. The other
-- modules hold proofs.
pub mod Types
pub mod Uri
pub mod Rules
pub mod Groups
mod Tests
pub mod Malformed
pub mod Verdict
pub mod Order
pub mod Explain
pub mod Matching
pub mod Segments
pub mod Resolve
pub mod Normal
pub mod Canonical
