-- ===== src/ControlPlane/Policy.antt =====
-- control-plane/policy.py
pub mod Hosts
pub mod Rules
pub mod Candidates
pub mod Names
pub mod Classes
pub mod Tests
