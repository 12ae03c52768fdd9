-- ===== src/Examples.antt =====
-- The theorems of the library at concrete inputs.
pub mod Printing
pub mod Driver
pub mod Commands
pub mod Starting
pub mod Console
pub mod Bus
pub mod Moving
pub mod Tables
