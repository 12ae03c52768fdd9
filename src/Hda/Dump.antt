-- ===== src/Hda/Dump.antt =====
-- The printing of widgets in src/hdacodec.cpp. The loops over arrays are recursions on their lists.
pub mod Safe
use tiny_os64v.Base.{
  ℕ, zero, suc, ◌+◌, ◌*◌, ◌/◌, ◌^◌, bit_and, List, [], ◌∷◌, Option, none, some, Bool, true, false,
  not, ltb, ◌==◌, if◌then◌else◌, String, ◌>>>◌, length, get_elem?,
}
use tiny_os64v.Print.Format.{Arg, word, chars, c_string}
use tiny_os64v.Hda.Types.{Amp, Widget, WidgetType, DefaultDevice, Location, JackInfo}
use tiny_os64v.Hda.World.{World, M, ◌>>=◌, ◌>>◌, pure, print}

abbrev pub text : String → Arg
text s = chars (c_string s)

abbrev pub say : String → M (Unit {0})
say s = print s []

-- One side of an amplifier: a round of the loop of `dumpAmp`.
unfoldable pub dump_side : String → (volume : ℕ) → (can_mute muted : Bool) → M (Unit {0})
dump_side side volume can_mute muted = do
  print "  %s: %d" (text side ∷ word volume ∷ [])
  if can_mute
      then print " state: %s      " (text (if muted then "MUTED" else "unmuted") ∷ [])
      else pure tt

unfoldable pub dump_amp : Amp → M (Unit {0})
dump_amp amp = if not amp.valid then pure tt else (do
  dump_side "left" amp.volume_0 amp.can_mute amp.muted_0
  dump_side "right" amp.volume_1 amp.can_mute amp.muted_1
  say "\n\r")

abbrev pub say_if : Bool → String → M (Unit {0})
say_if b s = if b then say s else pure tt

unfoldable pub dump_supported_streams : ℕ → M (Unit {0})
dump_supported_streams s = do
  say_if (not (bit_and s 1 == 0)) "  8000 sps\n\r"
  say_if (not (bit_and s 2 == 0)) "  11025 sps\n\r"
  say_if (not (bit_and s 4 == 0)) "  16000 sps\n\r"
  say_if (not (bit_and s 8 == 0)) "  22050 sps\n\r"
  say_if (not (bit_and s 16 == 0)) "  32000 sps\n\r"
  say_if (not (bit_and s 32 == 0)) "  44100 sps\n\r"
  say_if (not (bit_and s 64 == 0)) "  48000 sps\n\r"
  say_if (not (bit_and s 128 == 0)) "  88200 sps\n\r"
  say_if (not (bit_and s 256 == 0)) "  96000 sps\n\r"
  say_if (not (bit_and s 512 == 0)) "  1764000 sps\n\r"
  say_if (not (bit_and s 1024 == 0)) "  1920000 sps\n\r"
  say_if (not (bit_and s 2048 == 0)) "  3840000 sps\n\r"
  say_if (not (bit_and (s >>> 16) 1 == 0)) "  8-bit stream\n\r"
  say_if (not (bit_and (s >>> 17) 1 == 0)) "  16-bit stream\n\r"
  say_if (not (bit_and (s >>> 18) 1 == 0)) "  20-bit stream\n\r"
  say_if (not (bit_and (s >>> 19) 1 == 0)) "  24-bit stream\n\r"
  say_if (not (bit_and (s >>> 20) 1 == 0)) "  32-bit stream\n\r"

-- The loop over the input amplifiers, from amplifier `i` on.
unfoldable pub dump_amps : ℕ → List Amp → M (Unit {0})
dump_amps i [] = pure tt
dump_amps i (amp ∷ amps) = do print "  ch %d " (word i ∷ []); dump_amp amp; dump_amps (i + 1) amps

unfoldable pub dump_input_amps : Widget → M (Unit {0})
dump_input_amps w =
    if w.has_input_amp
    then (do say "  input amplifiers:\n\r"; dump_amps 0 w.input_amps)
    else pure tt

unfoldable pub dump_output_amp : String → Widget → M (Unit {0})
dump_output_amp heading w =
    if w.has_output_amp then (do say heading; dump_amp w.output_amp) else pure tt

unfoldable pub dump_nodes : List ℕ → M (Unit {0})
dump_nodes [] = pure tt
dump_nodes (o ∷ os) = do print "%d " (word o ∷ []); dump_nodes os

unfoldable pub dump_connections : String → List ℕ → M (Unit {0})
dump_connections heading nodes = do say heading; dump_nodes nodes; say "\n\r"

unfoldable pub dump_connected : Widget → M (Unit {0})
dump_connected w =
    if ltb 0 (length w.connection_list)
    then dump_connections "  connected to nodes: " w.connection_list
    else pure tt

unfoldable pub dump_input : Widget → M (Unit {0})
dump_input w = do
  dump_input_amps w
  dump_output_amp "  output amplifier:\n\r" w
  dump_connected w
  dump_supported_streams w.supported_streams

unfoldable pub dump_output : Widget → M (Unit {0})
dump_output w = do
  dump_input_amps w
  dump_output_amp "  output amplifier: " w
  dump_connected w
  dump_supported_streams w.supported_streams

unfoldable pub dump_mixer : Widget → M (Unit {0})
dump_mixer w = do
  dump_connections "  input come from nodes: " w.connection_list
  dump_input_amps w
  dump_output_amp "  output amplifier: " w

-- `JackInfo::colours`: an array of 16 pointers, of which the last three are null.
abbrev pub colours : List (Option String)
colours =
    some "Unknown"
    ∷ some "Black"
    ∷ some "Grey"
    ∷ some "Blue"
    ∷ some "Green"
    ∷ some "Red"
    ∷ some "Orange"
    ∷ some "Yellow"
    ∷ some "Purple"
    ∷ some "Pink"
    ∷ some "Reserved"
    ∷ some "White"
    ∷ some "Other"
    ∷ none
    ∷ none
    ∷ none
    ∷ []

-- A null pointer points to no memory.
unfoldable pub colour_text : ℕ → Arg
colour_text n = elim (get_elem? colours (bit_and n 0xF)) [ some (some s) ↦ text s | _ ↦ chars [] ]

abbrev pub location_text : Location → String
location_text Location.front = "    Front\n\r"
location_text Location.rear = "    Rear\n\r"
location_text Location.left = "    Left\n\r"
location_text Location.right = "    Right\n\r"
location_text Location.unknown = "    Unknown location\n\r"

unfoldable pub dump_jack_info : JackInfo → M (Unit {0})
dump_jack_info info = do
  print "  Jack colour: %s\n\r" (colour_text info.colour ∷ [])
  say (location_text info.location)

abbrev pub device_text : DefaultDevice → String
device_text DefaultDevice.line_in = "Line in\n\r"
device_text DefaultDevice.line_out = "Line out\n\r"
device_text DefaultDevice.mic_in = "Mic in\n\r"
device_text DefaultDevice.speaker = "Speaker\n\r"
device_text DefaultDevice.headphone_out = "Headphone\n\r"
device_text DefaultDevice.spdif_in = "SPDIF in\n\r"
device_text DefaultDevice.spdif_out = "SPDIF out\n\r"
device_text DefaultDevice.unknown = "Unknown\n\r"

-- The loop that marks the selected entry, from entry `i` on.
unfoldable pub dump_selected : (selection i : ℕ) → List ℕ → M (Unit {0})
dump_selected selection i [] = pure tt
dump_selected selection i (o ∷ os) = do
  if i == selection then print "%d (selected)    " (word o ∷ []) else print "%d " (word o ∷ [])
  dump_selected selection (i + 1) os

unfoldable pub dump_pin_complex : Widget → M (Unit {0})
dump_pin_complex w = do
  say "  Default function: "
  say (device_text w.default_device)
  say_if w.headphone_driver "  Can drive a headphone\n\r"
  say_if w.input_pin "  Is an input pin\n\r"
  say_if w.output_pin "  Is an output pin\n\r"
  dump_jack_info w.jack_info
  if ltb 0 (length w.connection_list)
      then (do
        say "  connected to nodes: "
        dump_selected w.selection 0 w.connection_list
        say "\n\r")
      else pure tt

-- The `switch` of `HDA::Widget::dump`.
unfoldable pub dump_type : WidgetType → Widget → M (Unit {0})
dump_type WidgetType.input w = do say "  Input\n\r"; dump_input w
dump_type WidgetType.output w = do say "  Output\n\r"; dump_output w
dump_type WidgetType.mixer w = do say "  Mixer\n\r"; dump_mixer w
dump_type WidgetType.selector w = say "  Selector\n\r"
dump_type WidgetType.pin_complex w = do say "  Pin Complex\n\r"; dump_pin_complex w
dump_type WidgetType.beep_gen w = say "  Beep generator\n\r"
dump_type WidgetType.vendor w = say "  Vendor defined\n\r"
dump_type WidgetType.unknown w = say "  Unknown\n\r"

unfoldable pub dump : Widget → M (Unit {0})
dump w = do
  print "ID = %d\n\r" (word w.id ∷ [])
  say_if w.digital "  digital device\n\r"
  dump_type w.type w
