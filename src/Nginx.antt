-- ===== src/Nginx.antt =====
-- backend/src/nginx.rs: the application blocks of the nginx configuration. `Render` renders them,
-- `Rows` has the theorems on the rows that are rendered, `Stage` puts the files in place.
pub mod Render
pub mod Rows
pub mod Stage
