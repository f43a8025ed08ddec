-- ===== src/Rollouts.antt =====
-- backend/featureflags/admin_services.py: the rollouts of a flag.
pub mod Model
pub mod Create
pub mod Switch
pub mod Disjoint
pub mod Steps
mod Tests
