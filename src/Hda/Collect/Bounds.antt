-- ===== src/Hda/Collect/Bounds.antt =====
-- Every widget that the pass describes is well formed, whatever the codec answers.
use tiny_os64v.Base.{
  ℕ, ◌≤◌, bit_and, List, Option, none, some, Bool, true, false, not, ◌&&◌, ltb, ◌==◌, if◌then◌else◌,
  ◌>>>◌, length, ◌≡◌, refl, arith, All, Bool-cases, inl, inr,
}
use tiny_os64v.Bits.{bit_and-le, bit_or_shifted}
use tiny_os64v.Hda.Types.{Amp, Widget, new_widget}
use tiny_os64v.Hda.World.{Platform, World, M, Always}
use tiny_os64v.Hda.Amps.Bounds.{IsAmp, new_amp-IsAmp, get_output_amplifier_info-IsAmp}
use tiny_os64v.Hda.Collect.Decode.{
  is_pin_complex, is_mixer, with_capabilities, with_type, with_channels, channels_of, jack_of,
  with_config, with_pin_cap,
}
use tiny_os64v.Hda.Collect.{
  if_value, collect_type, collect_pin, collect_selection, collect_length, collect_connections,
  number_of_amps, collect_input_amps, collect_output_amp, collect_pin_info, describe,
}
use tiny_os64v.Hda.Collect.Lists.{IsNode, FewNodes, Amps, collect_list-FewNodes, input_amps-Amps}

pub record IsWidget (id : ℕ) (w : Widget) : Type 0 where
  pub own_id : w.id ≡ id
  pub channels : w.channels ≤ 16
  pub nodes : All IsNode w.connection_list
  pub few_nodes : length w.connection_list ≤ 127
  pub inputs : All IsAmp w.input_amps
  pub few_inputs : length w.input_amps ≤ 127
  pub output : IsAmp w.output_amp
  pub selection : w.selection ≤ 255
  pub colour : w.jack_info.colour ≤ 15

pub new_widget-IsWidget : (id : ℕ) → IsWidget id (new_widget id)
new_widget-IsWidget id = record {
  own_id = refl;
  channels = omega arith;
  nodes = tt;
  few_nodes = omega arith;
  inputs = tt;
  few_inputs = omega arith;
  output = new_amp-IsAmp;
  selection = omega arith;
  colour = omega arith;
}

channels_of-le : (cap : ℕ) → channels_of cap ≤ 16
unfolding channels_of
channels_of-le cap = omega (
  arith,
  bit_and-le (cap >>> 13) 7,
  bit_and-le cap 1,
  bit_or_shifted (bit_and (cap >>> 13) 7) (bit_and cap 1) 1 (omega (arith, bit_and-le cap 1)),
)

module _ (id : ℕ) where
  with_capabilities-IsWidget :
      (cap : ℕ) {w : Widget} → IsWidget id w → IsWidget id (with_capabilities cap w)
  unfolding with_capabilities
  with_capabilities-IsWidget cap is = assumption (is)

  with_type-IsWidget :
      (n s : ℕ) {w : Widget}
      → IsWidget id w
      → IsWidget id (record (with_type n w) { supported_streams = s })
  unfolding with_type
  with_type-IsWidget n s is = ground arith

  with_channels-IsWidget :
      (cap : ℕ) {w : Widget} → IsWidget id w → IsWidget id (with_channels cap w)
  unfolding with_channels
  with_channels-IsWidget cap is = ground (arith, channels_of-le cap)

  with_config-IsWidget :
      (config : ℕ) {w : Widget} → IsWidget id w → IsWidget id (with_config config w)
  unfolding with_config jack_of
  with_config-IsWidget config is = ground (arith, bit_and-le (config >>> 12) 15)

  with_pin_cap-IsWidget : (cap : ℕ) {w : Widget} → IsWidget id w → IsWidget id (with_pin_cap cap w)
  unfolding with_pin_cap
  with_pin_cap-IsWidget cap is = ground arith

module _ (p : Platform) (id : ℕ) where
  abbrev Keeps : (Widget → M Widget) → Type 0
  Keeps f = (w : Widget) → IsWidget id w → (v : World) → IsWidget id (f w v).0

  pub either :
      (b : Bool) (m k : M Widget) (v : World)
      → IsWidget id (m v).0
      → IsWidget id (k v).0
      → IsWidget id ((if b then m else k) v).0
  either true m k v hm hk = hm
  either false m k v hm hk = hk

  collect_type-Keeps : (n : ℕ) → Keeps (collect_type p n)
  unfolding collect_type
  collect_type-Keeps n w is v = elim (Bool-cases (ltb n 2)) [
    | inl asked ↦ rw asked (with_type-IsWidget id n _ is)
    | inr other ↦ rw other (with_type-IsWidget id n _ is)
  ]

  value-Keeps :
      (f : ℕ → Widget → Widget)
      → ((v : ℕ) (w : Widget) → IsWidget id w → IsWidget id (f v w))
      → (r : Option ℕ) (w : Widget) → IsWidget id w
      → IsWidget id (if_value r f w)
  value-Keeps f h none w is = is
  value-Keeps f h (some v) w is = h v w is

  collect_pin-Keeps : Keeps (collect_pin p)
  unfolding collect_pin
  collect_pin-Keeps w is v =
      value-Keeps with_pin_cap (λ c w is. with_pin_cap-IsWidget id c is) _ _
        (value-Keeps with_config (λ c w is. with_config-IsWidget id c is) _ w is)

  collect_pin_info-Keeps : Keeps (collect_pin_info p)
  unfolding collect_pin_info
  collect_pin_info-Keeps w is v = elim (Bool-cases (is_pin_complex w.type)) [
    | inl pin ↦ rw pin (collect_pin-Keeps w is v)
    | inr other ↦ rw other is
  ]

  selected :
      (v : ℕ) (w : Widget) → IsWidget id w → IsWidget id (record w { selection = bit_and v 0xFF })
  selected v w is = ground (arith, bit_and-le v 255)

  collect_selection-Keeps : (n len : ℕ) → Keeps (collect_selection p n len)
  unfolding collect_selection
  collect_selection-Keeps n len w is v = elim (Bool-cases (not (len == 0) && not (n == 2))) [
    | inl asked ↦ rw asked (value-Keeps _ selected _ w is)
    | inr other ↦ rw other is
  ]

  listed :
      (l : List ℕ) (w : Widget)
      → IsWidget id w
      → FewNodes l
      → IsWidget id (record w { connection_list = l })
  listed l w is few = ground arith

  collect_length-Keeps : (n : ℕ) (r : Option ℕ) → Keeps (collect_length p n r)
  unfolding collect_length
  collect_length-Keeps n none w is v = is
  collect_length-Keeps n (some c) w is v =
      collect_selection-Keeps n (bit_and c 0x7F) _
        (listed _ w is (
          collect_list-FewNodes p w.id (bit_and c 0x7F) (bit_and (c >>> 7) 1) w.connection_list
            (some c) (bit_and-le c 0x7F) (is.nodes, is.few_nodes) v))
        _

  collect_connections-Keeps : (n c : ℕ) → Keeps (collect_connections p n c)
  unfolding collect_connections
  collect_connections-Keeps n c w is v = elim (Bool-cases (not (c == 0))) [
    | inl has ↦ rw has (collect_length-Keeps n _ w is _)
    | inr has_no ↦ rw has_no is
  ]

  number_of_amps-le : (w : Widget) → IsWidget id w → number_of_amps p w ≤ 127
  number_of_amps-le w is = elim (Bool-cases (is_mixer w.type)) [
    | inl mixer ↦ rw mixer is.few_nodes
    | inr other ↦ rw other (omega arith)
  ]

  pub amplified :
      (n : ℕ) (l : List Amp) (w : Widget)
      → IsWidget id w
      → n ≤ 127
      → Amps n l
      → IsWidget id (record w { input_amps = l })
  amplified n l w is small all = ground arith

  collect_input_amps-Keeps : Keeps (collect_input_amps p)
  unfolding collect_input_amps
  collect_input_amps-Keeps w is v =
      either w.has_input_amp _ _ v
        (amplified (number_of_amps p w) _ w is (number_of_amps-le w is)
          (input_amps-Amps p w.id (number_of_amps p w) 0 v))
        is

  pub with_output :
      (amp : Amp) (w : Widget)
      → IsWidget id w
      → IsAmp amp
      → IsWidget id (record w { output_amp = amp })
  with_output amp w is ok = ground arith

  collect_output_amp-Keeps : Keeps (collect_output_amp p)
  unfolding collect_output_amp
  collect_output_amp-Keeps w is v =
      either w.has_output_amp _ _ v (with_output _ w is (get_output_amplifier_info-IsAmp p w.id v))
        is

  -- Whatever the codec answers, a node that is described is well formed.
  pub describe-IsWidget : (cap : ℕ) → Always (IsWidget id) (describe p id cap)
  unfolding describe
  describe-IsWidget cap v =
      collect_output_amp-Keeps _
        (collect_input_amps-Keeps _
          (collect_connections-Keeps _ _ _
            (collect_pin_info-Keeps _
              (with_channels-IsWidget id cap (
                collect_type-Keeps _ _ (with_capabilities-IsWidget id cap (new_widget-IsWidget id))
                  _))
              _)
            _)
          _)
        _
