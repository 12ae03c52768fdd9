-- ===== src/Shell.antt =====
-- src/commands.cpp: the command interpreter.
pub mod View
pub mod Value
pub mod Session
pub mod Commands
pub mod Console
pub mod Report
