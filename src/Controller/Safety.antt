-- ===== src/Controller/Safety.antt =====
-- What a reconcile may do and what not (pkg/controller).
pub mod Events
pub mod Calls
pub mod Own
pub mod ReadOnly
pub mod Guard
pub mod Protected
pub mod Once
pub mod Finalizer
