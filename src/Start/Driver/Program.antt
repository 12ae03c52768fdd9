-- ===== src/Start/Driver/Program.antt =====
-- `efi_init` of src/main.cpp from the constructor of the driver on: the set-up, the prompt, and the
-- console's loop.
pub mod Serving
use tiny_os64v.Base.{ℕ, [], Option, none, some, Bool, true, false}
use tiny_os64v.Hda.World.{Platform}
use tiny_os64v.Hda.Reset.{new_codec}
use tiny_os64v.Firmware.{Firmware}
use tiny_os64v.Shell.Session.{C, pure, drive, ◌>>=◌, ◌>>◌, say}
use tiny_os64v.Shell.Console.{Console, console_loop}
use tiny_os64v.Start.Driver.Console.{set_codec, set_up}

module _ (p : Platform) (f : Firmware) (text_fuel : ℕ) where
  -- The prompt, and `rounds` rounds of the loop.
  unfoldable pub serve : (rounds : ℕ) → Console → Bool → C (Option Console)
  serve rounds c false = pure none
  serve rounds c true = do say ">" []; c' ← console_loop p f text_fuel rounds c; pure (some c')

  -- `none` means that the fuel of the reset ran out.
  unfoldable pub run_driver :
      (fuel rounds input_descriptor output_descriptor : ℕ) → Console → C (Option Console)
  run_driver fuel rounds input_descriptor output_descriptor c = do
    codec ← drive (new_codec p input_descriptor output_descriptor)
    set_codec codec
    ready ← set_up p f text_fuel fuel
    serve rounds c ready
