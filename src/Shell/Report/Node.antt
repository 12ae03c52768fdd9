-- ===== src/Shell/Report/Node.antt =====
-- The report on one node.
use tiny_os64v.Base.{
  ◌%◌, ℕ, zero, suc, ◌+◌, ◌-◌, bit_and, bit_or, [], ◌∷◌, Option, none, some, Bool, true, false, not,
  ◌&&◌, ◌==◌, if◌then◌else◌, ◌>>>◌, ◌<<<◌, u32,
}
use tiny_os64v.Print.Format.{word}
use tiny_os64v.Hda.World.{Platform, M, ◌>>=◌, ◌>>◌, pure, print}
use tiny_os64v.Hda.Verb.{verb}
use tiny_os64v.Hda.Amps.{value_or_0}
use tiny_os64v.Hda.Dump.{colour_text}
use tiny_os64v.Shell.Report.{say_if, has_bit, show_amplifier_settings, show_selection}

abbrev channels_of : (cap : ℕ) → ℕ
channels_of cap = 1 + bit_or (bit_and (cap >>> 13) 0x07 <<< 1) (bit_and cap 1)

abbrev pub type_of : (cap : ℕ) → ℕ
type_of cap = bit_and (cap >>> 20) 0x0F

-- The streams that a converter supports.
unfoldable pub report_streams : Option ℕ → M (Unit {0})
report_streams none = print "  Stream info failed\n\r" []
report_streams (some stream) = do
  say_if (has_bit stream 0) "  8000 sps\n\r"
  say_if (has_bit stream 1) "  11025 sps\n\r"
  say_if (has_bit stream 2) "  16000 sps\n\r"
  say_if (has_bit stream 3) "  22050 sps\n\r"
  say_if (has_bit stream 4) "  32000 sps\n\r"
  say_if (has_bit stream 5) "  44100 sps\n\r"
  say_if (has_bit stream 6) "  48000 sps\n\r"
  say_if (has_bit stream 7) "  88200 sps\n\r"
  say_if (has_bit stream 8) "  96000 sps\n\r"
  say_if (has_bit stream 9) "  1764000 sps\n\r"
  say_if (has_bit stream 10) "  1920000 sps\n\r"
  say_if (has_bit stream 11) "  3840000 sps\n\r"
  say_if (has_bit stream 16) "  8-bit stream\n\r"
  say_if (has_bit stream 17) "  16-bit stream\n\r"
  say_if (has_bit stream 18) "  20-bit stream\n\r"
  say_if (has_bit stream 19) "  24-bit stream\n\r"
  say_if (has_bit stream 20) "  32-bit stream\n\r"

unfoldable pub report_pin : Option ℕ → M (Unit {0})
report_pin none = pure tt
report_pin (some pin_cap) = do
  say_if (has_bit pin_cap 4) "  output pin\n\r"
  say_if (has_bit pin_cap 5) "  input pin\n\r"
  say_if (has_bit pin_cap 3) "  headphone capable\n\r"

unfoldable pub report_default : (default_device : ℕ) → M (Unit {0})
report_default device = do
  say_if (device == 0) "  Line Out\n\r"
  say_if (device == 1) "  Speaker\n\r"
  say_if (device == 2) "  HP Out\n\r"
  say_if (device == 8) "  Line In\n\r"
  say_if (device == 0xA) "  Mic In\n\r"

unfoldable pub report_subnodes : Option ℕ → M (Unit {0})
report_subnodes none = pure tt
report_subnodes (some r) =
    let start = bit_and (r >>> 16) 0xF in
    let count = bit_and r 0xF in
    if not (count == 0)
    then print "  subnodes: %d to %d\n\r" (word start ∷ word (start + count - 1) ∷ [])
    else pure tt

-- An entry is printed where the last query had an answer.
unfoldable pub report_entry : Option ℕ → (bytes : ℕ) → M (Unit {0})
report_entry none bytes = pure tt
report_entry (some r) bytes = print "%d " (word (bit_and bytes 0x7F) ∷ [])

module _ (p : Platform) where
  unfoldable pub report_output : (node cap : ℕ) → M (Unit {0})
  report_output node cap = do
    print "Audio Output: %d - channels: %d\n\r" (word node ∷ word (channels_of cap) ∷ [])
    stream ← verb p (u32 node) 0xF00 0x0A
    report_streams stream
    show_amplifier_settings p (u32 node) (channels_of cap)

  unfoldable pub report_input : (node cap : ℕ) → M (Unit {0})
  report_input node cap = do
    print "Audio Input: %d - channels: %d\n\r" (word node ∷ word (channels_of cap) ∷ [])
    stream ← verb p (u32 node) 0xF00 0x0A
    report_streams stream

  unfoldable pub report_mixer : (node cap : ℕ) → M (Unit {0})
  report_mixer node cap = do
    print "Audio Mixer: %d (%d channels)\n\r" (word node ∷ word (channels_of cap) ∷ [])
    show_amplifier_settings p (u32 node) (channels_of cap)

  unfoldable pub report_config : (node cap : ℕ) → Option ℕ → M (Unit {0})
  report_config node cap none = pure tt
  report_config node cap (some config) = do
    report_default (bit_and (config >>> 20) 0xF)
    print "  Colour: %s\n\r" (colour_text (bit_and (config >>> 12) 0xF) ∷ [])
    print "  Default association: %d\n\r" (word (bit_and (config >>> 4) 0xF) ∷ [])
    show_amplifier_settings p (u32 node) (channels_of cap)

  unfoldable pub report_pin_complex : (node cap : ℕ) → M (Unit {0})
  report_pin_complex node cap = do
    print "Pin complex: %d (%d channels)\n\r" (word node ∷ word (channels_of cap) ∷ [])
    pin_cap ← verb p (u32 node) 0xF00 0x0C
    report_pin pin_cap
    config ← verb p (u32 node) 0xF1C 0x00
    report_config node cap config

  -- The `switch` on the type of the node.
  unfoldable pub report_type : (node cap : ℕ) → M (Unit {0})
  report_type node cap =
      let type = type_of cap in
      if type == 0
      then report_output node cap
      else if type == 1
      then report_input node cap
      else if type == 2
      then report_mixer node cap
      else if type == 3
      then print "Audio Selector: %d\n\r" (word node ∷ [])
      else if type == 4
      then report_pin_complex node cap
      else if type == 5
      then print "Power widget: %d\n\r" (word node ∷ [])
      else if type == 6
      then print "Volume knob: %d\n\r" (word node ∷ [])
      else if type == 0xF
      then print "Vendor defined: %d\n\r" (word node ∷ [])
      else print "Undefined (id=%d decimal): %d\n\r" (word type ∷ word node ∷ [])

  -- A round's data: shifted by a byte, and asked for anew in every fourth round.
  unfoldable pub next_bytes : (node offset bytes : ℕ) → Option ℕ → M (Option ℕ × ℕ)
  next_bytes node offset bytes result =
      let shifted = bytes >>> 8 in
      if offset % 4 == 0
      then (do r ← verb p node 0xF02 offset; pure (r, value_or_0 r))
      else pure (result, shifted)

  -- The loop over the connection list, `left` entries from `offset` on.
  unfoldable pub report_entries : (node left offset bytes : ℕ) → Option ℕ → M (Unit {0})
  report_entries node zero offset bytes result = pure tt
  report_entries node (suc left) offset bytes result = do
    r ← next_bytes node offset bytes result
    report_entry r.0 r.1
    report_entries node left (offset + 1) r.1 r.0

  unfoldable pub report_list : (node len long_form : ℕ) → Option ℕ → M (Unit {0})
  report_list node len long_form result =
      if long_form == 0
      then (do print "    " []; report_entries node len 0 0 result; print "\n\r" [])
      else print "  long form (unsupported)" []

  unfoldable pub report_length : (node cap : ℕ) → Option ℕ → M (Unit {0})
  report_length node cap none = pure tt
  report_length node cap (some r) = do
    let len = bit_and r 0x7F
    print " length = %d" (word len ∷ [])
    report_list (u32 node) len (bit_and (r >>> 7) 0x1) (some r)
    if not (len == 0) && not (type_of cap == 2) then show_selection p (u32 node) else pure tt

  unfoldable pub report_connections : (node cap : ℕ) → M (Unit {0})
  report_connections node cap = do
    print "  connList = 1 " []
    r ← verb p (u32 node) 0xF00 0x0E
    report_length node cap r
    print "\n\r" []

  -- A node that answered with capabilities.
  unfoldable pub report_node : (node cap : ℕ) → M Bool
  report_node node cap = do
    report_type node cap
    say_if (has_bit cap 6) "  procWidget = 1\n\r"
    say_if (has_bit cap 9) "  digital = 1\n\r"
    if has_bit cap 8 then report_connections node cap else pure tt
    subnodes ← verb p (u32 node) 0xF00 0x04
    report_subnodes subnodes
    pure true

  unfoldable pub report_answer : (node : ℕ) → Option ℕ → M Bool
  report_answer node none = print "Invalid nodeId\n\r" [] >> pure false
  report_answer node (some cap) =
      if cap == 0
      then (print "No information for node %d\n\r" (word node ∷ []) >> pure false)
      else if cap == 0xFFFFFFFF
      then (print "No information for node %d\n\r" (word node ∷ []) >> pure false)
      else report_node node cap

  -- What `cmdDisplayNode` did with the number that was typed, or `none`.
  unfoldable pub report_on : Option ℕ → M Bool
  report_on none = print "Invalid nodeId\n\r" [] >> pure false
  report_on (some node) = do cap ← verb p (u32 node) 0xF00 0x09; report_answer node cap
