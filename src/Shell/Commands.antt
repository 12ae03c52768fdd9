-- ===== src/Shell/Commands.antt =====
-- The commands of src/commands.cpp that talk to the audio device.
pub mod Modes
pub mod Keeps
pub mod Params
pub mod NodeIo
pub mod Unmute
pub mod Refused
pub mod Count
pub mod Execute
use tiny_os64v.Base.{
  ℕ, List, [], ◌∷◌, Option, none, some, Bool, true, false, if◌then◌else◌, ◌>>=?◌, ltb, ◌==◌,
  bit_and, bit_or, ◌<<<◌, u32, length, get_elem?, ◌+◌, ◌*◌, ◌^◌,
}
use tiny_os64v.Print.Format.{Arg, word, chars, c_string}
use tiny_os64v.Hda.Types.{Codec, Widget, Amp, StreamFormat}
use tiny_os64v.Hda.World.{Platform, M}
use tiny_os64v.Hda.Verb.{send_verb, read_verb_response, read_reg, write_reg}
use tiny_os64v.Hda.Amps.{value_or_0}
use tiny_os64v.Hda.Refresh.{refresh_widget}
use tiny_os64v.Hda.Stream.{get_io_widget_format, get_play_pos}
use tiny_os64v.Hda.Format.{
  get_sample_rate, get_bit_depth, get_channels, rate_to_string, depth_to_string,
}
use tiny_os64v.Hda.Dump.{dump}
use tiny_os64v.Shell.View.{View, text, ParamResult, find_next_param}
use tiny_os64v.Shell.Value.{value_from_str}
use tiny_os64v.Shell.Session.{Session, C, pure, need, drive, gets, ◌>>=◌, ◌>>◌, say, set_widgets}

-- `findNextParam`, and `valueFromStr` of the parameter: the value, and the remainder.
unfoldable pub next_value : View → Option (Option ℕ × View)
next_value params =
    find_next_param params >>=? λ r. some (value_from_str (text r.param), r.remainder)

-- `operator[]` of `m_widgets`: an index out of range is a fault.
unfoldable pub widget_at : ℕ → C Widget
widget_at id = gets (λ s. s.codec.widgets) >>= λ ws. need (get_elem? ws id)

-- The gain that `cmdUnmute` sets: 0 dB of the output amplifier, or of the first input amplifier.
unfoldable pub gain_setting : Widget → ℕ
gain_setting w =
    if w.output_amp.valid
    then w.output_amp.zero_db_setting
    else elim w.input_amps [ [] ↦ 0x7F | amp ∷ amps ↦ amp.zero_db_setting ]

-- The loop of `cmdRefresh`.
unfoldable pub refresh_all : Platform → List Widget → M (List Widget)
refresh_all p [] v = ([], v)
refresh_all p (w ∷ ws) v =
    let (w', v') = refresh_widget p w v in let (ws', v'') = refresh_all p ws v' in (w' ∷ ws', v'')

unfoldable pub report_response : Option ℕ → C ℕ
report_response (some r) = say "  retuned: %x\n\r" (word r ∷ [])
report_response none = say "  ** no response! **\n\r" []

unfoldable pub display_node : Option ℕ → C Bool
display_node none = do say "Parameter error\n\r" []; pure false
display_node (some id) = do
  n ← gets (λ s. length s.codec.widgets)
  if ltb id n
      then (do w ← widget_at id; drive (dump w); pure true)
      else (do say "ERROR: ID out of range\n\r" []; pure false)

unfoldable pub cmd_display_node : View → C Bool
cmd_display_node params = do r ← need (next_value params); display_node r.0

unfoldable pub report_format : Option StreamFormat → C Bool
report_format none = do say "Cannot get format \n\r" []; pure false
report_format (some f) = do
  say "  format: sr=%s bits=%s channels=%d\n\r" (
      chars (c_string (rate_to_string (get_sample_rate f)))
      ∷ chars (c_string (depth_to_string (get_bit_depth f)))
      ∷ word (get_channels f)
      ∷ [])
  pure true

unfoldable pub write_codec_register : View → Option ℕ → C Bool
write_codec_register regname none = do say "Invalid value\n\r" []; pure false
write_codec_register regname (some v) = do
  say "%s <= $%x\n\r" (chars regname.bytes ∷ word v ∷ [])
  drive (write_reg (text regname) v)

unfoldable pub cmd_write_codec_register : View → C Bool
cmd_write_codec_register params = do
  regname ← need (find_next_param params)
  regvalue ← need (next_value regname.remainder)
  write_codec_register regname.param regvalue.0

module _ (p : Platform) where
  unfoldable pub cmd_unmute : View → C Bool
  cmd_unmute params = do
    widget ← need (next_value params)
    channel ← need (next_value widget.1)
    let id = value_or_0 widget.0
    let ch = value_or_0 channel.0
    w ← widget_at id
    let gain = gain_setting w
    say "Unmuting channel %d on node %d (gain = %d)\n\r" (word ch ∷ word id ∷ word gain ∷ [])
    drive (send_verb 0 (u32 id) 0x0300 (u32 (bit_or (bit_or 0x7000 (bit_and ch 0xF <<< 8)) gain)))
    drive (read_verb_response p)
    drive (send_verb 0 (u32 id) 0x0300 (bit_or 0xB000 gain))
    drive (read_verb_response p)
    pure true

  unfoldable pub cmd_refresh : View → C Bool
  cmd_refresh params = do
    ws ← gets (λ s. s.codec.widgets)
    ws' ← drive (refresh_all p ws)
    set_widgets ws'
    pure true

  unfoldable pub cmd_node_io : View → C Bool
  cmd_node_io params = do
    widget ← need (next_value params)
    verb ← need (next_value widget.1)
    payload ← need (next_value verb.1)
    let id = value_or_0 widget.0
    let v = value_or_0 verb.0
    let load = value_or_0 payload.0
    say "NodeIO: %d verb: %x  payload %x\n\r" (word id ∷ word v ∷ word load ∷ [])
    drive (send_verb 0 (u32 id) (u32 v) (u32 load))
    result ← drive (read_verb_response p)
    report_response result
    pure true

  unfoldable pub cmd_play_pos : View → C Bool
  cmd_play_pos params = do
    c ← gets (λ s. s.codec)
    pos ← drive (get_play_pos p c)
    say "  $%x\n\r" (word pos ∷ [])
    pure true

  unfoldable pub node_format : Option ℕ → C Bool
  node_format none = pure false
  node_format (some id) = do
    n ← gets (λ s. length s.codec.widgets)
    if ltb id n
        then (do w ← widget_at id; f ← drive (get_io_widget_format p w); report_format f)
        else (do say "Node ID out of range\n\r" []; pure false)

  unfoldable pub cmd_get_format : View → C Bool
  cmd_get_format params = do r ← need (next_value params); node_format r.0

  -- The name is printed by its `data()`: to the end of the line.
  unfoldable pub cmd_read_codec_register : View → C Bool
  cmd_read_codec_register params = do
    regname ← need (find_next_param params)
    result ← drive (read_reg p (text regname.param))
    say "%s = $%x\n\r" (chars regname.param.bytes ∷ word result ∷ [])
    pure true
