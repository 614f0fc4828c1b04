-- ===== src/Auth.antt =====
-- Who may do what: the API keys and the encryption of panel/src/api/middleware/auth.ts, the guards of
-- panel/src/api/middleware/rbac.ts, the session cookies of panel/src/api/middleware/security.ts, and
-- the routes of panel/src/api/routes/auth.ts.
pub mod Keys
pub mod Rbac
pub mod Session
