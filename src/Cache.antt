-- ===== src/Cache.antt =====
-- backend/src/cache.rs, the decision cache: `Cookie` has its key, `Types` its state, `Ops` its
-- operations. The other modules hold proofs.
pub mod Cookie
pub mod Types
pub mod Ops
pub mod Coherence
pub mod Effects
pub mod Runs
pub mod Termination
pub mod Reachable
pub mod Family
pub mod Ledger
pub mod Conservation
pub mod Shutdown
pub mod History
pub mod Served
