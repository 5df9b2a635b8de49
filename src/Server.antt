-- ===== src/Server.antt =====
-- pkg/cmds and cmd: the options of the operator and their flags, and the start of its manager.
pub mod Options
pub mod Manager
pub mod Run
pub mod Command
