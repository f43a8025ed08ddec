-- ===== src/Features.antt =====
-- backend/featureflags: the evaluation of feature flags for a request.
pub mod Model
pub mod Rules
pub mod Policy
pub mod Grants
pub mod Assignments
pub mod Evaluate
pub mod Preview
pub mod Request
pub mod Bridge
mod Tests
