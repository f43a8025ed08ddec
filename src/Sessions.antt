-- ===== src/Sessions.antt =====
-- backend/accounts/services/sessions.py: the sessions of an account.
pub mod Model
pub mod Touch
pub mod Revoke
pub mod Listing
mod Tests
