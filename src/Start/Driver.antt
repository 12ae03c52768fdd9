-- ===== src/Start/Driver.antt =====
-- How `efi_init` of src/main.cpp sets up the audio driver ahead of the console: what it asks of the
-- device and prints. The code stands under `#if 0`, around the console's loop.
pub mod Console
pub mod Device
pub mod Program
use tiny_os64v.Base.{
  ℕ, zero, suc, ◌+◌, ◌%◌, ◌^◌, bit_and, List, [], ◌∷◌, Option, none, some, Bool, true, false, not,
  ◌&&◌, ◌||◌, ◌==◌, if◌then◌else◌, ◌>>>◌, codes,
}
use tiny_os64v.Print.Format.{Arg, word, chars, c_string}
use tiny_os64v.Hda.Types.{Widget, DefaultDevice, StreamFormat}
use tiny_os64v.Hda.World.{Platform, M, ◌>>=◌, ◌>>◌, pure, print, read8}
use tiny_os64v.Hda.Verb.{verb, read_reg}
use tiny_os64v.Hda.Collect.Decode.{is_pin_complex}
use tiny_os64v.Hda.Format.{get_sample_rate, get_bit_depth, rate_to_string, depth_to_string}

abbrev is_output_device : DefaultDevice → Bool
is_output_device DefaultDevice.line_out = true
is_output_device DefaultDevice.headphone_out = true
is_output_device _ = false

-- The loop over the lines of attached codecs, `left` of them from `bit` on.
unfoldable pub report_lines : (left bit statests : ℕ) → M (Unit {0})
report_lines zero bit statests = pure tt
report_lines (suc left) bit statests = do
  if bit_and (statests >>> bit) 0x01 == 1
      then print "SDATA_IN[%d] has something connected\n\r" (word bit ∷ [])
      else pure tt
  report_lines left (bit + 1) statests

-- The loop over the widgets.
unfoldable pub report_pins : List Widget → M (Unit {0})
report_pins [] = pure tt
report_pins (w ∷ ws) = do
  if is_pin_complex w.type && is_output_device w.default_device && w.output_pin
      then print "Viable output pin node: %d\n\r" (word w.id ∷ [])
      else pure tt
  report_pins ws

unfoldable pub report_id : Option ℕ → M (Unit {0})
report_id (some id) = print "Codec ID = %x\n\r" (word id ∷ [])
report_id none = print "Error reading codec number\n\r" []

unfoldable pub report_output : Bool → M (Unit {0})
report_output false = print "SetOutputNode failed!\n\r" []
report_output true = print "SetOutputNode OK!\n\r" []

unfoldable pub report_old_format : Option StreamFormat → M (Unit {0})
report_old_format none = pure tt
report_old_format (some f) = print "Old output node stream format: sr=%s bits=%s\n\r" (
    chars (c_string (rate_to_string (get_sample_rate f)))
    ∷ chars (c_string (depth_to_string (get_bit_depth f)))
    ∷ [])

module _ (p : Platform) where
  -- The arguments of a call are taken to be evaluated from left to right.
  unfoldable pub report_device : M (Unit {0})
  report_device = do
    gcap ← read_reg p (codes "gcap")
    print "  output streams: %d\n\r" (word (bit_and (gcap >>> 12) 0xF) ∷ [])
    print "  input  streams: %d\n\r" (word (bit_and (gcap >>> 8) 0xF) ∷ [])
    print "  bidi   streams: %d\n\r" (word (bit_and (gcap >>> 3) 0x1F) ∷ [])
    print "  SDO           : %d\n\r" (word (bit_and (gcap >>> 1) 0x3) ∷ [])
    print "  64-bit        : %s\n\r"
        (chars (c_string (if bit_and gcap 0x1 == 0 then "NO" else "YES")) ∷ [])
    major ← read8 p 0x03
    minor ← read8 p 0x02
    print "HDA version = %d.%d\n\r" (word major ∷ word minor ∷ [])
    gctl ← read_reg p (codes "gctl")
    print "GCTL        = %x\n\r" (word gctl ∷ [])
    intctl ← read_reg p (codes "intctl")
    print "INTCTL      = %x\n\r" (word intctl ∷ [])

  -- What is asked and printed behind the reset.
  unfoldable pub report_codecs : List Widget → M (Unit {0})
  report_codecs widgets = do
    statests ← read_reg p (codes "statests")
    report_lines 15 0 statests
    ics ← read_reg p (codes "ics")
    print "ICS = %x\n\r" (word ics ∷ [])
    id ← verb p 0 0xF00 0
    report_id id
    report_pins widgets
