-- ===== src/Session.antt =====
-- backend/src/session.rs and the two handlers that end sessions: `Ticket` derives the key of a
-- session from its cookie, `World` has the services that the handlers call, `Kill` and `Logout` are
-- the handlers (backend/src/admin.rs, backend/src/portal.rs), `Indexed` is the middleware before them
-- (backend/src/api.rs), `Subscriber` the loop that reads revocations, and `Live` the scan that tells
-- which sessions are live.
pub mod Ticket
pub mod World
pub mod Subscriber
pub mod Live
pub mod Kill
pub mod Logout
pub mod Indexed
