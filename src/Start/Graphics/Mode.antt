-- ===== src/Start/Graphics/Mode.antt =====
-- The video mode that is chosen.
use tiny_os64v.Base.{
  ℕ, zero, suc, ◌+◌, List, [], ◌∷◌, Option, none, some, Bool, true, if◌then◌else◌, ◌≡◌, refl, ap,
  ◌∙◌, arith, ◌%◌, ◌==◌, ◌&&◌, ◌<◌, ◌≤◌, Bool-cases, inl, inr,
}
use tiny_os64v.Print.Format.{word}
use tiny_os64v.Hda.World.{Event, World, print, record_event}
use tiny_os64v.Firmware.Call.{Call}
use tiny_os64v.Firmware.{Firmware, VideoMode}
use tiny_os64v.Start.{call_firmware, pure, need, safely, look, ◌>>=◌, ◌>>◌}
use tiny_os64v.Start.Picture.{Floats, mandelbrot}
use tiny_os64v.Start.Graphics.{
  break_line, as_int, mode_loop, set_desired, search_modes, choose_mode, paint, show_picture,
  do_graphics,
}

-- The last of the modes below `count` that is 640 pixels wide and 480 high.
abbrev pub is_vga : ℕ × ℕ → Bool
is_vga size = (size.0 == 640) && (size.1 == 480)

abbrev pub last_vga : (size : ℕ → ℕ × ℕ) (count : ℕ) → Option ℕ
last_vga size zero = none
last_vga size (suc count) = if is_vga (size count) then some count else last_vga size count

-- What the firmware is relied on for: it has the graphics protocol, whose mode is reported, with
-- `count` modes, and tells the size of each of them.
pub record HasGraphics (f : Firmware) (count : ℕ) (size : ℕ → ℕ × ℕ) : Type 0 where
  pub found : (log : List Event) → f.finds_graphics log ≡ true
  pub reported :
      (log : List Event) → (m : VideoMode) × (f.video_mode log ≡ some m) × (m.max_mode ≡ count)
  pub sized :
      (log : List Event) (mode : ℕ) → mode < count → f.video_info log mode ≡ some (size mode)

-- The history behind the lines on the current mode, behind the query of a mode, and behind the
-- queries of `left` modes from `mode` on.
abbrev pub headed : VideoMode → List Event → List Event
headed m log =
    Event.say "Available modes: %d\n\r" (word m.max_mode ∷ [])
    ∷ Event.say "Frame buffer size     %d bytes\n\r" (word m.frame_buffer_size ∷ [])
    ∷ Event.say "Frame buffer address  %X\n\r" (word m.frame_buffer_base ∷ [])
    ∷ Event.say "Current video mode is %d\n\r" (word m.mode ∷ [])
    ∷ log

abbrev pub queried : (mode : ℕ) → ℕ × ℕ → List Event → List Event
queried mode size log =
    Event.say "mode %d -> x=%d  y=%d        " (word mode ∷ word size.0 ∷ word size.1 ∷ [])
    ∷ Event.call (Call.query_video_mode mode)
    ∷ (if mode % 2 == 0 then Event.say "\n\r" [] ∷ log else log)

abbrev pub all_queried : (size : ℕ → ℕ × ℕ) (mode left : ℕ) → List Event → List Event
all_queried size mode zero log = log
all_queried size mode (suc left) log =
    all_queried size (mode + 1) left (queried mode (size mode) log)

-- The history behind the call that sets a mode, if there is one to set.
abbrev pub chosen : Option ℕ → List Event → List Event
chosen none log = log
chosen (some mode) log =
    Event.call (Call.set_video_mode mode)
    ∷ Event.say "Setting GOP to mode %d\n" (word mode ∷ [])
    ∷ log

-- The history behind all that comes ahead of the picture.
abbrev pub ahead_of_picture : (size : ℕ → ℕ × ℕ) (count : ℕ) → VideoMode → List Event → List Event
ahead_of_picture size count m log = chosen (last_vga size count) (
    Event.say "\n\r" []
    ∷ all_queried size 0 count (headed m (Event.call Call.locate_graphics ∷ log)))

-- What the demonstration does behind history `log`, where `m` is the mode reported at the start: the
-- picture is painted for the resolution that is reported behind the choice of the mode, at the
-- address reported first.
pub record IsShown (f : Firmware) (fl : Floats) (count : ℕ) (size : ℕ → ℕ × ℕ) (m : VideoMode)
    (log : List Event) (r : Option (Unit {0} × World)) : Type 0 where
  pub mode : VideoMode
  pub reported : f.video_mode (ahead_of_picture size count m log) ≡ some mode
  pub painted :
      r
      ≡ mandelbrot fl
          (as_int mode.width)
          (as_int mode.height)
          m.frame_buffer_base
          (record { log = ahead_of_picture size count m log })

break_line_lem :
    (mode : ℕ) (w : World)
    → break_line mode w
      ≡ some (tt, record w { log = if mode % 2 == 0 then Event.say "\n\r" [] ∷ w.log else w.log })
unfolding safely pure print
break_line_lem mode w = elim (Bool-cases (mode % 2 == 0)) [
  | inl even ↦ rw even refl
  | inr odd ↦ rw odd refl
]

module _ (f : Firmware) (count : ℕ) (size : ℕ → ℕ × ℕ) (h : HasGraphics f count size) where
  mode_loop-last :
      (left mode : ℕ) (info : Option (ℕ × ℕ)) (w : World)
      → mode + left ≤ count
      → mode_loop f left mode info (last_vga size mode) w
        ≡ some (last_vga size (mode + left), record w { log = all_queried size mode left w.log })
  unfolding mode_loop safely need pure print ◌>>=◌ ◌>>◌ call_firmware
  mode_loop-last zero mode info w le =
      ap (λ k. some (last_vga size k, w)) {x = mode} {y = mode + 0} (omega arith)
  mode_loop-last (suc left) mode info w le =
      let v : World = record {
        log = if mode % 2 == 0 then Event.say "\n\r" [] ∷ w.log else w.log;
      } in
      let v' : World = record { log = queried mode (size mode) w.log } in
      let v'' : World = record { log = all_queried size mode (suc left) w.log } in
      let next : last_vga size (suc mode) ≡ last_vga size (mode + 1) =
        ap (last_vga size) {x = suc mode} {y = mode + 1} (omega arith) in
      rw (break_line_lem mode w, h.sized v.log mode (omega (arith, le)))
        (ap (λ d. mode_loop f left (mode + 1) (some (size mode)) d v') next
          ∙ mode_loop-last left (mode + 1) (some (size mode)) v' (omega (arith, le))
          ∙ ap (λ k. some (last_vga size k, v'')) {x = mode + 1 + left} {y = mode + suc left}
              (omega arith))

  search_modes-last :
      (m : VideoMode) (w : World)
      → m.max_mode ≡ count
      → search_modes f (some m) w
        ≡ some (last_vga size count, record w { log = all_queried size 0 count (headed m w.log) })
  unfolding search_modes safely need print ◌>>=◌ ◌>>◌
  search_modes-last m w e =
      let v : World = record { log = all_queried size 0 count (headed m w.log) } in
      ap (λ k. mode_loop f k 0 none none (record { log = headed m w.log })) e
      ∙ mode_loop-last count 0 none (record { log = headed m w.log }) (omega arith)
      ∙ ap (λ k. some (last_vga size k, v)) {x = 0 + count} {y = count} (omega arith)

  set_desired_lem :
      (desired : Option ℕ) (w : World)
      → set_desired f desired w ≡ some (tt, record w { log = chosen desired w.log })
  unfolding set_desired safely pure print ◌>>◌ call_firmware
  set_desired_lem none w = refl
  set_desired_lem (some mode) w = refl

  abbrev located : World → World
  located w = record_event (Event.call Call.locate_graphics) w

  choose_mode_lem :
      (m : VideoMode) (w : World)
      → m.max_mode ≡ count
      → choose_mode f (some m) (located w)
        ≡ some (tt, record w { log = ahead_of_picture size count m w.log })
  unfolding choose_mode safely print ◌>>=◌ ◌>>◌
  choose_mode_lem m w e =
      rw (search_modes-last m (located w) e) (set_desired_lem (last_vga size count) _)

  -- On firmware with the graphics protocol, which reports the same number of modes whenever it is
  -- asked, and tells the size of each of them, the demonstration asks for every mode, in order, sets
  -- the last one of 640 by 480 pixels, if there is one, and paints its picture for the resolution
  -- that the firmware reports then, at the address that it reported at the start.
  pub do_graphics-IsShown :
      (fl : Floats) (w : World)
      → IsShown f fl count size (h.reported (located w).log).0 w.log (do_graphics f fl w)
  unfolding do_graphics show_picture paint safely look need ◌>>=◌ ◌>>◌ call_firmware
  do_graphics-IsShown fl w =
      let (m, reported, counted) = h.reported (located w).log in
      let (m', reported', counted') = h.reported (ahead_of_picture size count m w.log) in
      record {
        mode = m';
        reported = reported';
        painted = rw (h.found w.log, reported, choose_mode_lem m w counted, reported') refl;
      }
