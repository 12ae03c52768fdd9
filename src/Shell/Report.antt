-- ===== src/Shell/Report.antt =====
-- The report on a node of src/commands.cpp, which asks the device for all that it prints. It stands
-- under `#if 0`: `showAmplifierSettings` and `showSelection`, and what `cmdDisplayNode` did before.
pub mod Node
pub mod Prints
use tiny_os64v.Base.{
  ℕ, zero, suc, ◌+◌, ◌^◌, bit_and, bit_or, List, [], ◌∷◌, ◌++◌, Option, none, some, Bool, true,
  false, not, ◌==◌, if◌then◌else◌, String, ◌>>>◌,
}
use tiny_os64v.Print.Format.{Arg, word, chars, c_string}
use tiny_os64v.Hda.World.{Platform, M, ◌>>=◌, ◌>>◌, pure, print}
use tiny_os64v.Hda.Verb.{verb}
use tiny_os64v.Hda.Amps.{value_or_0}

-- A line that is printed where a condition holds.
unfoldable pub say_if : Bool → String → M (Unit {0})
say_if b line = if b then print line [] else pure tt

-- A test of one bit.
abbrev pub has_bit : ℕ → (bit : ℕ) → Bool
has_bit v bit = bit_and (v >>> bit) 1 == 1

abbrev muted_text : ℕ → Arg
muted_text settings = chars (c_string (if has_bit settings 7 then "MUTED" else ""))

-- The line on one side of an amplifier, with the arguments that come ahead of its gain.
unfoldable pub show_side : String → List Arg → (settings : ℕ) → M (Unit {0})
show_side fmt args settings =
    if not (settings == 0)
    then print fmt (args ++ (word (bit_and settings 0x7F) ∷ muted_text settings ∷ []))
    else pure tt

module _ (p : Platform) where
  -- The loop over the inputs, `left` of them from `count` on.
  unfoldable pub show_inputs : (node left count : ℕ) → M (Unit {0})
  show_inputs node zero count = pure tt
  show_inputs node (suc left) count = do
    right ← verb p node 0xB00 (bit_and count 0x0F)
    show_side "    input %d R : %d %s\n\r" (word count ∷ []) (value_or_0 right)
    left_side ← verb p node 0xB00 (bit_or (bit_and count 0x0F) 0x2000)
    show_side "    input %d L : %d %s\n\r" (word count ∷ []) (value_or_0 left_side)
    show_inputs node left (count + 1)

  unfoldable pub show_outputs : (node : ℕ) → M (Unit {0})
  show_outputs node = do
    right ← verb p node 0xB00 0x8000
    show_side "    output R : %d %s\n\r" [] (value_or_0 right)
    left_side ← verb p node 0xB00 0xA000
    show_side "    output L : %d %s\n\r" [] (value_or_0 left_side)

  unfoldable pub show_amplifier_settings : (node chan_count : ℕ) → M (Unit {0})
  show_amplifier_settings node chan_count = do show_inputs node chan_count 0; show_outputs node

  unfoldable pub report_selection : Option ℕ → M (Unit {0})
  report_selection none = pure tt
  report_selection (some v) = print "  Selector: index=%d\n\r" (word (bit_and v 0xFF) ∷ [])

  unfoldable pub show_selection : (node : ℕ) → M (Unit {0})
  show_selection node = do r ← verb p node 0xF01 0x00; report_selection r
