-- ===== src/Controller.antt =====
-- pkg/controller: the two reconcilers.
pub mod Status
pub mod Finalizer
pub mod Files
pub mod Wait
pub mod Secret
pub mod Aws
pub mod Region
pub mod Azure
pub mod Cleanup
pub mod Args
pub mod Create
pub mod Script
pub mod Reconcile
pub mod Worker
pub mod Footprint
pub mod Safety
pub mod Stages
pub mod Requeue
pub mod Answers
pub mod Bounds
