-- ===== src/Webauthn.antt =====
-- backend/accounts/webauthn.py and the WebAuthn parts of backend/accounts/middleware.py.
pub mod ClientData
pub mod Policies
pub mod Challenge
pub mod Consume
pub mod Boundary
pub mod Middleware
mod Tests
