-- ===== src/Firmware.antt =====
-- The answers of the firmware to the calls in src/main.cpp, src/commands.cpp and src/allocator.cpp,
-- as functions of all that happened before, the latest first.
pub mod Call
use tiny_os64v.Base.{ℕ, List, Option, Bool}
use tiny_os64v.Hda.World.{Event}

-- `EFI_GRAPHICS_OUTPUT_PROTOCOL_MODE`, with the resolution that `m_info` points to.
pub record VideoMode : Type 0 where
  pub mode : ℕ
  pub max_mode : ℕ
  pub frame_buffer_base : ℕ
  pub frame_buffer_size : ℕ
  pub width : ℕ
  pub height : ℕ

-- `text_mode` gives the columns and rows of a text mode, or `none` for a status other than success;
-- `sets_text_mode` and `finds_graphics` tell whether the call succeeds. `video_mode` is what the
-- graphics protocol's `Mode` points to, or `none` for a null pointer, and `video_info` the width and
-- height behind the pointer that `QueryMode` returns, or `none` if it sets no pointer. `waits` and
-- `key` are the status of the wait and the character of the key, `none` for no success; `pool` is
-- the address of the memory that is allocated, and `memory` what is at an address, `none` for a
-- fault.
pub record Firmware : Type 0 where
  pub text_mode : List Event → (mode : ℕ) → Option (ℕ × ℕ)
  pub sets_text_mode : List Event → (mode : ℕ) → Bool
  pub finds_graphics : List Event → Bool
  pub video_mode : List Event → Option VideoMode
  pub video_info : List Event → (mode : ℕ) → Option (ℕ × ℕ)
  pub waits : List Event → Bool
  pub key : List Event → Option ℕ
  pub pool : List Event → (size : ℕ) → Option ℕ
  pub memory : List Event → (address : ℕ) → Option ℕ
