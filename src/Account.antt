-- ===== src/Account.antt =====
-- The account of a user: backend/accounts/services/profile.py, personalization.py,
-- account_status.py and email_addresses.py.
pub mod Profile
pub mod Update
pub mod Email
pub mod Status
mod Tests
