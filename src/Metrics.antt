-- ===== src/Metrics.antt =====
-- backend/src/metrics.rs: `Counters` has the counters and the functions that step them, `Totals` what
-- they add up to, and `Render` the text of the exposition.
pub mod Counters
pub mod Totals
pub mod Render
