-- ===== src/Hda.antt =====
-- src/hdacodec.h and src/hdacodec.cpp: the driver of the HD audio codec.
pub mod Types
pub mod Regs
pub mod World
pub mod Verb
pub mod Amps
pub mod Collect
pub mod Format
pub mod Stream
pub mod Reset
pub mod Refresh
pub mod Dump
