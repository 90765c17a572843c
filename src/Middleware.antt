-- ===== src/Middleware.antt =====
-- The gin middleware of api/middleware that decides on a request before its handler runs. The
-- permission checks stand with the roles, in Rbac/Gate.
pub mod Auth
pub mod Guarded
pub mod Csrf
pub mod Limit
mod Tests
