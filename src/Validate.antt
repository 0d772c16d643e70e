-- ===== src/Validate.antt =====
-- backend/src/validate.rs: what the management plane refuses to store. `Fields` has the checks of the
-- slug, the hostname, the name and the icon, `Pattern` that of a path pattern, `Upstream` that of an
-- upstream; `Shape` has theorems on the slug and the hostname.
pub mod Fields
pub mod Shape
pub mod Pattern
pub mod Living
pub mod Upstream
