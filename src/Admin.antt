-- ===== src/Admin.antt =====
-- The admin site's protection: backend/accounts/services/admin_mfa.py and backend/backend/middleware.py.
pub mod Urls
pub mod Mfa
pub mod Hosts
pub mod Origin
mod Tests
