-- ===== src/Api.antt =====
-- api/v1alpha1: the Machine and Driver resources, the constants of the conditions, and the phase
-- that is computed from them.
pub mod Types
pub mod Names
pub mod Reason
pub mod Phase
pub mod Helper
