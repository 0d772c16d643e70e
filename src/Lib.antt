-- ===== src/Lib.antt =====
-- OpenBerat, an identity-aware proxy: a model of its backend (backend/src), which nginx asks about every
-- request to a protected application, and what holds of it.
--
-- The parts and how they work together. nginx sends a subrequest to `/decide` (decide.rs). The handler
-- looks the session up in the decision cache (cache.rs); on a miss it asks oauth2-proxy who the user is,
-- puts the session into the index of the kill switch (session.rs), loads the rules of the user from
-- Postgres (store.rs) and keeps them in the cache. Every request, hit or miss, is decided by the policy
-- engine (policy.rs) on the rules at hand, and counted (metrics.rs, cache.rs, store.rs). The portal
-- (portal.rs) and the management plane (admin.rs) end sessions, drop them from the cache, and write the
-- tables, whose values are validated (validate.rs) and rendered into the configuration of nginx (nginx.rs).
--
-- The files:
-- - Base: Boolean tests, lists, text (a `str` is the list of its characters), UTF-8, association lists
--   with one entry for a key, which stand for the hash maps and sets, and what they weigh in total
--   (Weights); a stable sort (Sorting) and lists with different keys (Keyed).
-- - Policy (policy.rs): Types, Uri (`percent_decode`, `resolve`, `normalise`, `readings`), Rules
--   (`matches`, `decide_path`, `decide`, `explain`), Groups (`in_group`, `may_manage`,
--   `may_reset_second_factor`); the theorems are in Malformed, Verdict, Order, Explain and Matching, and
--   those on normal forms in Segments, Resolve, Normal and Canonical.
-- - Store (store.rs): Channel, the sending half of the audit channel, Writer, the other end of it
--   (`write_audit`) and the shutdown of main.rs, Tables, the two tables and the queries over them
--   (`applicable!`, `rules_for`, `traced_rules_for`, `portal_apps`), Portal, the fold of the rows of the
--   portal's query, and Queries and Arranged, what the queries give from the same tables.
-- - Cache (cache.rs): Cookie (`session_cookie`, `Key::new`), Types (the state behind the mutex), Ops (the
--   operations, each a function on that state); Family, Coherence, Effects, Runs, Termination and Reachable
--   have the theorems on the operations, Ledger, Conservation and Shutdown those on the counted decisions,
--   and History and Served those on what is served.
-- - Session: Ticket (session.rs, `session_key`, `index_key`), Subscriber (session.rs,
--   `subscribe_invalidations`), Live (session.rs, `Index::live`), World (the calls of services, in order),
--   Kill (admin.rs, `kill`; its Window is what is still served behind it), Logout (portal.rs, `logout`; api.rs, `Caller::from`, `from_portal`) and Indexed
--   (api.rs, the middleware `indexed`).
-- - Metrics (metrics.rs): Counters, Totals and Render, the text of the exposition.
-- - Decide (decide.rs): Request, Handler, Outcome (a rule for proofs about every way through the handler)
--   and Answers.
-- - Validate (validate.rs): Fields, Shape, Pattern, Living and Upstream.
-- - Nginx (nginx.rs): Render, Rows and Stage.
-- - Admin (admin.rs): Guard, Reset, Failure (`failed`), Applications and Entitlements (the checks of the
--   handlers that write), Writes (these handlers on the tables) and Integrity;
--   Plane, the two layers before every handler (api.rs, `router`; admin.rs, `routes`).
-- - Keycloak (keycloak.rs): Client (`token`, `get`, `logout_all`), Reset (`target`, `delete_otp`),
--   Directory (`users`, `members`; admin.rs, `list_users`); Credentials, Targets and Gate have theorems.
-- - Audit (audit.rs): Rows (`list_audit`), Sessions (`list_sessions`), Screen (`explain`); Paging, SignedIn
--   and Explained have the theorems.
-- - Portal (portal.rs): Apps (`apps`, `me`).
-- - Tests and Policy/Tests: the theorems and some runs at concrete inputs.
--
-- State and time. A handler is a function from the state before it to the state and the answer behind it.
-- The cache is behind a mutex, and an operation of it is one step; `sweep`, `drop_sub` and `flush_all`, which
-- take the mutex once for each eviction, are one step each too, and a history may have their evictions one at a
-- time with other operations between them (`Op.evict_key`). `set_subscribed` is one step: an insertion between its
-- evictions and its change of the flag counts as behind both. Where a handler waits for
-- others, what they do in the meantime is a parameter: any function of the state in `/decide`, any change of the
-- cache in the kill switch and the logout, whose services answer by any function of the calls made. The clock is an
-- argument wherever the code reads it; an instant is a number of nanoseconds from an epoch before all of
-- them. Counters wrap around at the width that they have in the code.
--
-- What other programs and crates do is an argument of the definitions: the decoders of base64, SHA-256,
-- the hash of a path, `HeaderValue::to_str`, the parsers of URLs, JSON and UUIDs, whether the audit channel
-- takes an event, the answers of oauth2-proxy, Keycloak, Redis and Postgres, and the file system. The
-- theorems hold for any such functions, or name what they take of them. The statements that the code hands
-- to Postgres are written out over lists of rows, and the order of the rows is a parameter where the
-- statement or the collation leaves it open. The task that listens for invalidations is a step relation,
-- with the operations of the other tasks between its steps.
--
-- Loops. The eviction loop of the cache's `insert` runs on fuel, which is the number of the entries: each
-- round removes one, so the loop has stopped before the fuel runs out. The scan of Redis runs on fuel too:
-- it ends when Redis gives the cursor 0, and as much fuel as there are replies is enough. The digits of a
-- port have fuel for five, those of a page number for ten, those of a metric for twenty. All other loops go down a list.
--
-- Not modelled: log lines, the JSON of the answers and of the requests, routing,
-- start and configuration (main.rs), the expiry of audit partitions (store.rs, `maintain_audit`), the two
-- lists of admin.rs that only run one query, readiness (api.rs), and everything outside backend/src but for
-- the constraints of the schema.
pub mod Base
pub mod Policy
pub mod Store
pub mod Cache
pub mod Session
pub mod Metrics
pub mod Decide
pub mod Validate
pub mod Nginx
pub mod Admin
pub mod Keycloak
pub mod Audit
pub mod Portal
pub mod Tests
