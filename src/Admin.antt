-- ===== src/Admin.antt =====
-- The administration of panel/src/api/routes.
pub mod Places
pub mod Catalog
pub mod Users
pub mod Heartbeat
pub mod Links
pub mod Overview
