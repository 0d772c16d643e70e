-- ===== src/Decide.antt =====
-- backend/src/decide.rs: `GET /decide`. `Request` has the request, the answer and what the handler asks
-- of others, `Handler` is the handler, `Outcome` has what each of its answers means.
pub mod Request
pub mod Handler
pub mod Outcome
pub mod Answers
