-- ===== src/Hda/Amps.antt =====
-- The amplifier and stream queries of src/hdacodec.cpp.
pub mod Bounds
use tiny_os64v.Base.{
  ℕ, zero, suc, ◌+◌, ◌*◌, ◌^◌, bit_and, bit_or, List, [], ◌∷◌, Option, none, some, Bool, true,
  false, not, ◌==◌, if◌then◌else◌, ◌<<<◌, ◌>>>◌,
}
use tiny_os64v.Hda.Types.{Amp, new_amp}
use tiny_os64v.Hda.World.{Platform, World, M, ◌>>=◌, ◌>>◌, pure}
use tiny_os64v.Hda.Verb.{verb}

-- `std::optional::value_or(0)` and `has_value()`.
abbrev pub value_or_0 : Option ℕ → ℕ
value_or_0 none = 0
value_or_0 (some v) = v

-- The settings of one side, as both functions read them from a response that is there.
abbrev pub set_right : Option ℕ → Amp → Amp
set_right none amp = amp
set_right (some settings) amp = record amp {
  muted_1 = not (bit_and (settings >>> 7) 0x01 == 0);
  volume_1 = bit_and settings 0x7F;
}

abbrev pub set_left : Option ℕ → Amp → Amp
set_left none amp = amp
set_left (some settings) amp = record amp {
  muted_0 = not (bit_and (settings >>> 7) 0x01 == 0);
  volume_0 = bit_and settings 0x7F;
}

-- The amplifier of capabilities that are not zero.
abbrev pub capable : ℕ → Amp
capable amp_cap = record new_amp {
  can_mute = not (bit_and (amp_cap >>> 31) 0x01 == 0);
  zero_db_setting = bit_and amp_cap 0x7F;
  valid = true;
}

module _ (p : Platform) where
  unfoldable pub get_supported_streams : ℕ → M ℕ
  get_supported_streams widget_id = do
    result ← verb p widget_id 0xF00 0x0A
    pure (value_or_0 result)

  -- The settings of the right side and then of the left.
  unfoldable pub get_settings : ℕ → (right left : ℕ) → Amp → M Amp
  get_settings widget_id right left amp = do
    r ← verb p widget_id 0xB00 right
    l ← verb p widget_id 0xB00 left
    pure (set_left l (set_right r amp))

  unfoldable pub get_amp : ℕ → (right left amp_cap : ℕ) → M Amp
  get_amp widget_id right left amp_cap =
      if amp_cap == 0 then pure new_amp else get_settings widget_id right left (capable amp_cap)

  unfoldable pub get_output_amplifier_info : ℕ → M Amp
  get_output_amplifier_info widget_id = do
    result ← verb p widget_id 0xF00 0x12
    get_amp widget_id (1 <<< 15) (bit_or (1 <<< 15) (1 <<< 13)) (value_or_0 result)

  unfoldable pub get_input_amplifier_info : ℕ → ℕ → M Amp
  get_input_amplifier_info widget_id channel = do
    result ← verb p widget_id 0xF00 0x0D
    get_amp widget_id (bit_and channel 0x0F) (bit_or (bit_and channel 0x0F) (1 <<< 13))
        (value_or_0 result)
