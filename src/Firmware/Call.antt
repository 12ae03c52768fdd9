-- ===== src/Firmware/Call.antt =====
-- The calls of the firmware that the program makes, but for the allocation of pages.
use tiny_os64v.Base.{ℕ, List}

-- `output` is the text that is written to the console, and `read_word` a read of 32 bits at an
-- address that the program was given.
pub data Call : Type 0 where
  query_text_mode set_text_mode : (mode : ℕ) → Call
  clear_screen : Call
  enable_cursor : ℕ → Call
  locate_graphics : Call
  query_video_mode set_video_mode : (mode : ℕ) → Call
  wait_key read_key : Call
  output : List ℕ → Call
  set_watchdog : (timeout : ℕ) → Call
  allocate_pool : (size : ℕ) → Call
  handle_protocol : Call
  get_memory_map : (size : ℕ) → Call
  allocate_typed : (memory_type size : ℕ) → Call
  free_pool : (address : ℕ) → Call
  read_word : (address : ℕ) → Call
