-- ===== src/Keycloak.antt =====
-- backend/src/keycloak.rs, the client of Keycloak's Admin API: `Client` sends the requests and reads the answers,
-- `Directory` lists users, `Reset` has the two calls of a second-factor reset, `Credentials`,
-- `Targets` and `Gate` what they come to.
pub mod Client
pub mod Reset
pub mod Directory
pub mod Credentials
pub mod Targets
pub mod Gate
