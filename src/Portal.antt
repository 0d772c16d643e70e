-- ===== src/Portal.antt =====
-- backend/src/portal.rs: what the portal page shows (`apps`, `me`). Its sign-out is in `Session`.
pub mod Apps
