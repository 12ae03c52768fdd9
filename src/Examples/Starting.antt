-- ===== src/Examples/Starting.antt =====
-- The theorems on the console and on what the program does when it starts, at concrete inputs.
use tiny_os64v.Base.{
  Decides, none, if◌then◌else◌, ℕ, zero, suc, ◌+◌, ◌*◌, ◌-◌, ◌/◌, ◌<◌, [], ◌∷◌, List, some, true,
  ltb, leb, replicate, ◌≡◌, refl, arith, set, u8,
}
use tiny_os64v.Hda.World.{Event}
use tiny_os64v.Firmware.{Firmware, VideoMode}
use tiny_os64v.Firmware.Call.{Call}
use tiny_os64v.Shell.Session.{Session, pure, ask, need, ◌>>=◌, ◌>>◌}
use tiny_os64v.Shell.Commands.Execute.Table.{HasTable, new_codec-HasTable}
use tiny_os64v.Shell.Console.{
  Console, console_loop, append_key, edit_line, echo, wait_for_key, read_key, get_key, type_key,
  press,
}
use tiny_os64v.Shell.Console.Edit.{Outcome, Runs}
use tiny_os64v.Shell.Console.Line.{Refines}
use tiny_os64v.Shell.Console.Refines.{Agrees, console_loop-Refines}
use tiny_os64v.Shell.Console.Table.{console_loop-HasTable}
use tiny_os64v.Start.TextMode.{set_high_resolution_text_mode}
use tiny_os64v.Start.TextMode.Highest.{
  HasModes, SetsHighest, set_high_resolution_text_mode-SetsHighest,
}
use tiny_os64v.Start.Picture.{Floats, mandelbrot}
use tiny_os64v.Start.Picture.Pixels.{IsPicture, mandelbrot-IsPicture}
use tiny_os64v.Start.Graphics.{do_graphics}
use tiny_os64v.Start.Graphics.Mode.{HasGraphics, IsShown, do_graphics-IsShown}
use tiny_os64v.Start.Guid.{UefiGuid, same_guid, same_guid-Decides}
use tiny_os64v.Start.Driver.Program.{run_driver}
use tiny_os64v.Start.Driver.Console.Playing.{ahead}
use tiny_os64v.Start.Driver.Program.Serving.{Serves, made, run_driver-Serves}
use tiny_os64v.Examples.Driver.{ready_device, start}
use tiny_os64v.Examples.Commands.{three_modes, session}

-- Firmware on which `r` is typed, over and over, with five video modes, of which modes 1 and 3 are
-- of 640 by 480 pixels.
abbrev video_size : ℕ → ℕ × ℕ
video_size zero = (1024, 768)
video_size (suc zero) = (640, 480)
video_size (suc (suc zero)) = (800, 600)
video_size (suc (suc (suc zero))) = (640, 480)
video_size (suc (suc (suc (suc mode)))) = (1280, 1024)

abbrev video_mode : VideoMode
video_mode = record {
  mode = 0;
  max_mode = 5;
  frame_buffer_base = 0x80000000;
  frame_buffer_size = 0x300000;
  width = 640;
  height = 480;
}

abbrev firmware : Firmware
firmware = record three_modes {
  finds_graphics = λ log. true;
  video_mode = λ log. some video_mode;
  video_info = λ log mode. if ltb mode 5 then some (video_size mode) else none;
  key = λ log. some 114;
}

abbrev empty_console : Console
empty_console = record { buffer = replicate 256 0; index = 0 }

empty_console-Refines : Refines empty_console []
empty_console-Refines = record { size = refl; fits = omega arith; holds = refl }

console_loop-Refines_example :
    (r : Outcome) × Runs ready_device firmware 4 3 [] session r
    × Agrees ready_device firmware 4
        (console_loop ready_device firmware 4 3 empty_console session)
        r
console_loop-Refines_example =
    console_loop-Refines ready_device firmware 4 3 empty_console [] session empty_console-Refines

abbrev typed_console : Console
typed_console = record { buffer = set (replicate 256 0) 0 114; index = 1 }

abbrev typed_session : Session
typed_session = record session {
  world = record {
    log =
        Event.call (Call.output (114 ∷ []))
        ∷ Event.call Call.read_key
        ∷ Event.call Call.wait_key
        ∷ session.world.log;
  };
}

types_r :
    console_loop ready_device firmware 4 1 empty_console session
    ≡ some (typed_console, typed_session)
unfolding console_loop get_key wait_for_key read_key press type_key echo edit_line append_key pure
    ask need ◌>>=◌ ◌>>◌
types_r = refl

console_loop-HasTable_example : HasTable typed_session.codec
console_loop-HasTable_example =
    console_loop-HasTable ready_device firmware 4 1 empty_console typed_console session
      typed_session (new_codec-HasTable ready_device 0x80 0xC0 start) types_r

-- The sizes of the three text modes.
abbrev text_size : ℕ → ℕ × ℕ
text_size zero = (80, 25)
text_size (suc zero) = (80, 50)
text_size (suc (suc mode)) = (100, 40)

supports :
    (log : List Event) (mode : ℕ)
    → mode < 3
    → three_modes.text_mode log mode ≡ some (text_size mode)
supports log zero lt = refl
supports log (suc zero) lt = refl
supports log (suc (suc zero)) lt = refl
supports log (suc (suc (suc mode))) lt = absurd (omega (arith, lt))

three_modes-HasModes : HasModes three_modes text_size 3
three_modes-HasModes = record { supported = supports; unsupported = λ log. refl }

set_high_resolution_text_mode-SetsHighest_example :
    SetsHighest text_size 3 start (set_high_resolution_text_mode three_modes 3 start)
set_high_resolution_text_mode-SetsHighest_example =
    set_high_resolution_text_mode-SetsHighest three_modes text_size 3 three_modes-HasModes
      (omega arith) 3 start (omega arith)

-- Arithmetic on whole numbers in place of `float`.
abbrev whole : Floats
whole = record {
  Float = ℕ;
  zero = 0;
  minus_one = 0;
  minus_one_and_half = 0;
  two = 2;
  four = 4;
  tiny = 0;
  of_int = λ n. n;
  to_u8 = u8;
  negate = λ n. 0;
  add = λ a b. a + b;
  subtract = λ a b. a - b;
  multiply = λ a b. a * b;
  divide = λ a b. a / b;
  less = ltb;
  at_least = λ a b. leb b a;
}

mandelbrot-IsPicture_example :
    IsPicture whole 4 3 0x80000000 start (mandelbrot whole 4 3 0x80000000 start)
mandelbrot-IsPicture_example = mandelbrot-IsPicture whole 4 3 0x80000000 start (omega arith)

knows_size :
    (mode : ℕ)
    → mode < 5
    → (if ltb mode 5 then some (video_size mode) else none) ≡ some (video_size mode)
knows_size mode lt = ground (arith, lt)

abbrev firmware-HasGraphics : HasGraphics firmware 5 video_size
firmware-HasGraphics = record {
  found = λ log. refl;
  reported = λ log. (video_mode, refl, refl);
  sized = λ log mode lt. knows_size mode lt;
}

do_graphics-IsShown_example :
    IsShown firmware whole 5 video_size video_mode start.log (do_graphics firmware whole start)
do_graphics-IsShown_example =
    do_graphics-IsShown firmware 5 video_size firmware-HasGraphics whole start

abbrev graphics_guid : UefiGuid
graphics_guid = record {
  data1 = 0x9042a9de;
  data2 = 0x23dc;
  data3 = 0x4a38;
  data4 = 0x96 ∷ 0xfb ∷ 0x7a ∷ 0xde ∷ 0xd0 ∷ 0x80 ∷ 0x51 ∷ 0x6a ∷ [];
}

abbrev other_guid : UefiGuid
other_guid = record graphics_guid {
  data4 = 0x96 ∷ 0xfb ∷ 0x7a ∷ 0xde ∷ 0xd0 ∷ 0x80 ∷ 0x51 ∷ 0x6b ∷ [];
}

same_guid-Decides_example :
    Decides (graphics_guid ≡ other_guid) (same_guid graphics_guid other_guid)
same_guid-Decides_example = same_guid-Decides graphics_guid other_guid refl refl

run_driver-Serves_example :
    Serves ready_device firmware 4
      (ahead ready_device (made ready_device firmware 4 0x80 0xC0 session).world).log
      (λ rounds c. run_driver ready_device firmware 4 1 rounds 0x80 0xC0 c session)
run_driver-Serves_example =
    run_driver-Serves ready_device firmware 4 1 0 0x80 0xC0 session (omega arith) refl
