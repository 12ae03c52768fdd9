-- ===== src/Start/Driver/Console.antt =====
-- The set-up of the driver and the first commands, up to the console's prompt.
pub mod Playing
use tiny_os64v.Base.{ℕ, ◌*◌, [], ◌∷◌, ◌++◌, Option, none, some, Bool, true, false, codes}
use tiny_os64v.Hda.Types.{Codec, StreamFormat, SampleRate, BitDepth}
use tiny_os64v.Hda.World.{Platform, World, M}
use tiny_os64v.Hda.Verb.{write_reg}
use tiny_os64v.Hda.Format.{set_format}
use tiny_os64v.Hda.Reset.{reset}
use tiny_os64v.Hda.Stream.{
  disable_interrupt, turn_off_corb_rirb_dmapos, output_stream_turn_off, set_output_node,
  enable_pin_widget, set_io_widget_format, get_io_widget_format, output_stream_set_descriptor_list,
  output_stream_length, output_stream_format, play_sound,
}
use tiny_os64v.Firmware.{Firmware}
use tiny_os64v.Shell.View.{View, view}
use tiny_os64v.Shell.Session.{Session, C, pure, drive, gets, ◌>>=◌, ◌>>◌}
use tiny_os64v.Shell.Commands.{widget_at}
use tiny_os64v.Shell.Commands.Execute.{execute}
use tiny_os64v.Start.Driver.{report_device, report_codecs, report_output, report_old_format}

unfoldable pub set_codec : Codec → C (Unit {0})
set_codec c s = some (tt, record s { codec = c })

-- `streamFormat`: its first value is replaced.
abbrev pub stream_format : StreamFormat
stream_format = (set_format SampleRate.r48000 BitDepth.b16 2 (record { value = 0 })).1

abbrev pub unmute_12 : View
unmute_12 = view (codes "unmute 12 0" ++ 0 ∷ []) 11

abbrev pub unmute_27 : View
unmute_27 = view (codes "unmute 27 0" ++ 0 ∷ []) 11

-- What follows the reset, up to the commands.
unfoldable pub set_up_stream : Platform → Codec → C (Unit {0})
set_up_stream p c = do
  drive disable_interrupt
  drive turn_off_corb_rirb_dmapos
  drive (output_stream_turn_off c)
  drive (report_codecs p c.widgets)
  ok ← drive (set_output_node p 2)
  drive (report_output ok)
  drive (output_stream_set_descriptor_list c)
  drive (output_stream_length c (16 * 4096))
  drive (output_stream_format c stream_format)
  pin ← widget_at 27
  drive (enable_pin_widget p pin)
  node ← widget_at 2
  old ← drive (get_io_widget_format p node)
  drive (report_old_format old)
  drive (set_io_widget_format p node stream_format)
  pure tt

module _ (p : Platform) (f : Firmware) (text_fuel : ℕ) where
  -- The first commands, and the sound.
  unfoldable pub first_commands : Codec → C (Unit {0})
  first_commands c = do
    execute p f text_fuel unmute_12
    execute p f text_fuel unmute_27
    drive (play_sound c (16 * 4096) stream_format)
    pure tt

  unfoldable pub set_up_reset : Option Codec → C Bool
  set_up_reset none = pure false
  set_up_reset (some c) = do set_codec c; set_up_stream p c; first_commands c; pure true

  -- All that follows the constructor, up to the prompt. `false` means that the fuel of the reset ran
  -- out.
  unfoldable pub set_up : (fuel : ℕ) → C Bool
  set_up fuel = do
    drive (report_device p)
    drive (write_reg (codes "wakeen") 0x7F)
    c ← gets (λ s. s.codec)
    c' ← drive (reset p fuel c)
    set_up_reset c'
