-- ===== src/Print.antt =====
-- src/myprint.cpp, and `print` of src/main.cpp: text output into a buffer of `wchar_t`.
pub mod Output
pub mod Hex
pub mod Decimal
pub mod Format
