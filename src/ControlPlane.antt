-- ===== src/ControlPlane.antt =====
-- control-plane/
pub mod Holds
pub mod Policy
pub mod Asks
pub mod Tools
pub mod Pinned
pub mod Egress
pub mod Bridge
pub mod Cards
