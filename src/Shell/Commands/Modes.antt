-- ===== src/Shell/Commands/Modes.antt =====
-- The commands of src/commands.cpp that call the firmware, read memory, or only print.
use tiny_os64v.Base.{
  ℕ, zero, suc, ◌+◌, ◌-◌, ◌*◌, ◌%◌, [], ◌∷◌, Option, none, some, Bool, true, false, if◌then◌else◌,
  ltb, ◌==◌, u32, u64,
}
use tiny_os64v.Print.Format.{word}
use tiny_os64v.Firmware.Call.{Call}
use tiny_os64v.Firmware.{Firmware, VideoMode}
use tiny_os64v.Shell.View.{View}
use tiny_os64v.Shell.Commands.{next_value}
use tiny_os64v.Shell.Session.{C, pure, need, gets, ask, ◌>>=◌, ◌>>◌, say}

-- The loops that print spaces up to a column: `n` of them.
unfoldable pub spaces : ℕ → C (Unit {0})
spaces zero = pure tt
spaces (suc n) = do say " " []; spaces n

-- A round of the loop of `cmdShowText`, and the rounds behind it.
unfoldable pub show_text_round : C Bool → (mode : ℕ) → Option (ℕ × ℕ) → C Bool
show_text_round rest mode none = pure true
show_text_round rest mode (some r) = do
  say "  mode: %d   rows=%d  cols=%d\n\r" (word mode ∷ word r.0 ∷ word r.1 ∷ [])
  rest

-- What `info` points to behind `QueryMode`: if that sets no pointer, what it pointed to before.
abbrev pub latest : Option (ℕ × ℕ) → Option (ℕ × ℕ) → Option (ℕ × ℕ)
latest (some i) old = some i
latest none old = old

-- A round of `cmdShowVideo` ahead of the query: the column that the line is filled up to.
unfoldable pub video_column : (mode offset : ℕ) → C ℕ
video_column mode offset =
    if mode % 2 == 0
    then (say "\n\r" [] >> pure 2)
    else (spaces (40 - offset) >> pure (offset + (40 - offset)))

unfoldable pub video_line : (mode : ℕ) → ℕ × ℕ → C ℕ
video_line mode size =
    if ltb mode 10
    then say "mode  %d -> x=%d  y=%d        " (word mode ∷ word size.0 ∷ word size.1 ∷ [])
    else say "mode %d -> x=%d  y=%d        " (word mode ∷ word size.0 ∷ word size.1 ∷ [])

abbrev pub field : Option VideoMode → (VideoMode → ℕ) → ℕ
field none get = 0
field (some m) get = get m

abbrev pub line_break : ℕ → C (Unit {0})
line_break offset = if offset % 4 == 0 then (say "\n\r" [] >> pure tt) else pure tt

abbrev pub line_head : (address offset : ℕ) → C (Unit {0})
line_head address offset =
    if offset % 4 == 0
    then (say "$%x : " (word (u64 (address + u32 (offset * 4))) ∷ []) >> pure tt)
    else pure tt

abbrev pub words_of : Option ℕ → ℕ
words_of none = 1
words_of (some len) = u32 len

module _ (f : Firmware) where
  -- What is asked of the firmware at the call `c`.
  abbrev pub text_mode_at : ℕ → C (Option (ℕ × ℕ))
  text_mode_at mode = ask (Call.query_text_mode mode) (λ log. f.text_mode log mode)

  -- The text modes from `mode` on, as long as the query succeeds. The fuel bounds the queries, and
  -- `false` means that it ran out.
  unfoldable pub show_text_loop : (fuel mode : ℕ) → C Bool
  show_text_loop zero mode = pure false
  show_text_loop (suc fuel) mode = do
    found ← text_mode_at mode
    show_text_round (show_text_loop fuel (u64 (mode + 1))) mode found

  unfoldable pub cmd_show_text : (fuel : ℕ) → View → C Bool
  cmd_show_text fuel params = do say "Text modes:\n\r" []; show_text_loop fuel 0

  unfoldable pub set_text_mode : Option ℕ → C Bool
  set_text_mode none = pure false
  set_text_mode (some mode) = ask (Call.set_text_mode mode) (λ log. f.sets_text_mode log mode)

  unfoldable pub cmd_set_text_mode : View → C Bool
  cmd_set_text_mode params = do mode ← need (next_value params); set_text_mode mode.0

  -- The loop over the video modes, `left` of them from `mode` on.
  unfoldable pub show_video_loop : (left mode offset : ℕ) → Option (ℕ × ℕ) → C (Unit {0})
  show_video_loop zero mode offset info = pure tt
  show_video_loop (suc left) mode offset info = do
    column ← video_column mode offset
    found ← ask (Call.query_video_mode mode) (λ log. f.video_info log mode)
    size ← need (latest found info)
    printed ← video_line mode size
    show_video_loop left (mode + 1) (column + printed) (some size)

  unfoldable pub show_video_modes : Option VideoMode → C Bool
  show_video_modes mode = do
    say "Current video mode is %d\n\r" (word (field mode (λ m. m.mode)) ∷ [])
    say "Frame buffer address  %X\n\r" (word (field mode (λ m. m.frame_buffer_base)) ∷ [])
    say "Frame buffer size     %d bytes\n\r" (word (field mode (λ m. m.frame_buffer_size)) ∷ [])
    m ← need mode
    say "Available modes: %d\n\r" (word m.max_mode ∷ [])
    show_video_loop m.max_mode 0 0 none
    say "\n\r" []
    pure true

  unfoldable pub show_video_found : Bool → C Bool
  show_video_found false = do say "Cannot access UEFI graphics protocol\n\r" []; pure false
  show_video_found true = do mode ← gets (λ s. f.video_mode s.world.log); show_video_modes mode

  unfoldable pub cmd_show_video : View → C Bool
  cmd_show_video params = do
    say "Video modes:\n\r" []
    found ← ask Call.locate_graphics f.finds_graphics
    show_video_found found

  -- The loop of `cmdReadMem`, `left` words from `offset` on.
  unfoldable pub read_mem_loop : (address left offset : ℕ) → C (Unit {0})
  read_mem_loop address zero offset = pure tt
  read_mem_loop address (suc left) offset = do
    line_head address offset
    let at = u64 (address + offset * 4)
    v ← ask (Call.read_word at) (λ log. f.memory log at)
    w ← need v
    say "$%x  " (word w ∷ [])
    line_break (offset + 1)
    read_mem_loop address left (offset + 1)

  unfoldable pub read_mem : Option ℕ → Option ℕ → C Bool
  read_mem none len = pure false
  read_mem (some address) len = do read_mem_loop address (words_of len) 0; say "\n\r" []; pure true

  unfoldable pub cmd_read_mem : View → C Bool
  cmd_read_mem params = do
    addr ← need (next_value params)
    len ← need (next_value addr.1)
    read_mem addr.0 len.0
