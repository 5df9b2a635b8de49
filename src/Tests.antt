-- ===== src/Tests.antt =====
-- The theorems at concrete inputs, and runs of the model.
pub mod Fixtures
pub mod Laws
pub mod Code
pub mod Control
pub mod Script
pub mod Reconcile
pub mod Answers
pub mod Server
pub mod Creation
pub mod Network
pub mod Scripted
pub mod Requeue
pub mod Secret
pub mod Life
pub mod Memory
