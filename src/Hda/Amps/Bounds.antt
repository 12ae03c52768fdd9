-- ===== src/Hda/Amps/Bounds.antt =====
-- What the amplifier queries can return.
use tiny_os64v.Base.{true, inr, ◌⊎◌, ℕ, ◌≤◌, Option, none, some, ◌==◌, ◌≡◌, refl, arith}
use tiny_os64v.Bits.{bit_and-le}
use tiny_os64v.Hda.Types.{Amp, new_amp}
use tiny_os64v.Hda.World.{Platform, Always, Always-if}
use tiny_os64v.Hda.Amps.{
  set_right, set_left, capable, get_settings, get_amp, get_output_amplifier_info,
  get_input_amplifier_info,
}

-- Gains of seven bits, and nothing set on an amplifier that is not there.
pub record IsAmp (amp : Amp) : Type 0 where
  pub zero_db : amp.zero_db_setting ≤ 127
  pub left : amp.volume_0 ≤ 127
  pub right : amp.volume_1 ≤ 127
  pub absent : (amp.valid ≡ true) ⊎ (amp ≡ new_amp)

pub new_amp-IsAmp : IsAmp new_amp
new_amp-IsAmp = record {
  zero_db = omega arith;
  left = omega arith;
  right = omega arith;
  absent = inr refl;
}

settings-IsAmp :
    (left right : Option ℕ) (amp_cap : ℕ)
    → IsAmp (set_left left (set_right right (capable amp_cap)))
settings-IsAmp none none c = ground (arith, bit_and-le c 127)
settings-IsAmp none (some r) c = ground (arith, bit_and-le c 127, bit_and-le r 127)
settings-IsAmp (some l) none c = ground (arith, bit_and-le c 127, bit_and-le l 127)
settings-IsAmp (some l) (some r) c =
    ground (arith, bit_and-le c 127, bit_and-le l 127, bit_and-le r 127)

module _ (p : Platform) where
  get_settings-IsAmp :
      (widget_id right left c : ℕ) → Always IsAmp (get_settings p widget_id right left (capable c))
  unfolding get_settings
  get_settings-IsAmp widget_id right left c w = settings-IsAmp _ _ c

  get_amp-IsAmp : (widget_id right left c : ℕ) → Always IsAmp (get_amp p widget_id right left c)
  unfolding get_amp
  get_amp-IsAmp widget_id right left c =
      Always-if IsAmp (c == 0) _ _ (λ w. new_amp-IsAmp) (get_settings-IsAmp widget_id right left c)

  -- Whatever the codec answers, an output amplifier is read within its bounds.
  pub get_output_amplifier_info-IsAmp :
      (widget_id : ℕ) → Always IsAmp (get_output_amplifier_info p widget_id)
  unfolding get_output_amplifier_info
  get_output_amplifier_info-IsAmp widget_id w = get_amp-IsAmp widget_id _ _ _ _

  -- Whatever the codec answers, an input amplifier is read within its bounds.
  pub get_input_amplifier_info-IsAmp :
      (widget_id channel : ℕ) → Always IsAmp (get_input_amplifier_info p widget_id channel)
  unfolding get_input_amplifier_info
  get_input_amplifier_info-IsAmp widget_id channel w = get_amp-IsAmp widget_id _ _ _ _
