-- ===== src/Start/Graphics.antt =====
-- `do_graphics` of src/main.cpp.
pub mod Mode
use tiny_os64v.Base.{
  ℕ, zero, suc, ◌+◌, ◌%◌, ◌^◌, List, [], ◌∷◌, Option, none, some, Bool, true, false, ◌&&◌,
  if◌then◌else◌, ltb, ◌==◌, u32,
}
use tiny_os64v.Print.Format.{word}
use tiny_os64v.Hda.World.{World, print}
use tiny_os64v.Firmware.Call.{Call}
use tiny_os64v.Firmware.{Firmware, VideoMode}
use tiny_os64v.Shell.Commands.Modes.{latest, field}
use tiny_os64v.Start.{call_firmware, W, pure, need, safely, look, ◌>>=◌, ◌>>◌}
use tiny_os64v.Start.Picture.{Floats, mandelbrot}

abbrev pub wanted : ℕ × ℕ → Bool
wanted size = (size.0 == 640) && (size.1 == 480)

abbrev pub break_line : ℕ → W (Unit {0})
break_line mode = if mode % 2 == 0 then safely (print "\n\r" []) else pure tt

-- The `int` that a resolution is passed as. No pixel is painted for a negative one.
abbrev pub as_int : ℕ → ℕ
as_int n = if ltb (u32 n) (2 ^ 31) then u32 n else 0

module _ (f : Firmware) where
  -- The loop over the modes, `left` of them from `mode` on. `info` is what the pointer of that name
  -- points to, and `desired` is `desiredMode`, `none` for -1.
  unfoldable pub mode_loop :
      (left mode : ℕ) (info : Option (ℕ × ℕ)) (desired : Option ℕ) → W (Option ℕ)
  mode_loop zero mode info desired = pure desired
  mode_loop (suc left) mode info desired = do
    break_line mode
    answer ← safely (call_firmware (Call.query_video_mode mode) (λ log. f.video_info log mode))
    size ← need (latest answer info)
    safely (print "mode %d -> x=%d  y=%d        " (word mode ∷ word size.0 ∷ word size.1 ∷ []))
    mode_loop left (mode + 1) (some size) (if wanted size then some mode else desired)

  unfoldable pub set_desired : Option ℕ → W (Unit {0})
  set_desired none = pure tt
  set_desired (some mode) = do
    safely (print "Setting GOP to mode %d\n" (word mode ∷ []))
    safely (call_firmware (Call.set_video_mode mode) (λ log. tt))

  -- What is printed of the current mode, and the search.
  unfoldable pub search_modes : Option VideoMode → W (Option ℕ)
  search_modes mode = do
    safely (print "Current video mode is %d\n\r" (word (field mode (λ m. m.mode)) ∷ []))
    safely
        (print "Frame buffer address  %X\n\r" (word (field mode (λ m. m.frame_buffer_base)) ∷ []))
    safely (
        print "Frame buffer size     %d bytes\n\r"
          (word (field mode (λ m. m.frame_buffer_size)) ∷ []))
    m ← need mode
    safely (print "Available modes: %d\n\r" (word m.max_mode ∷ []))
    mode_loop m.max_mode 0 none none

  unfoldable pub choose_mode : Option VideoMode → W (Unit {0})
  choose_mode mode = do desired ← search_modes mode; safely (print "\n\r" []); set_desired desired

  unfoldable pub paint : Floats → (frame_buffer : ℕ) → W (Unit {0})
  paint fl frame_buffer = do
    mode ← look f.video_mode
    m ← need mode
    mandelbrot fl (as_int m.width) (as_int m.height) frame_buffer

  unfoldable pub show_picture : Floats → Bool → W (Unit {0})
  show_picture fl false = safely (print "Shit" [])
  show_picture fl true = do
    mode ← look f.video_mode
    choose_mode mode
    paint fl (field mode (λ m. m.frame_buffer_base))

  unfoldable pub do_graphics : Floats → W (Unit {0})
  do_graphics fl = do
    found ← safely (call_firmware Call.locate_graphics f.finds_graphics)
    show_picture fl found
