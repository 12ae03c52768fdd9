-- ===== src/Hda/Format.antt =====
-- `HDA::StreamFormat` and the `toString` functions of src/hdacodec.cpp.
pub mod RoundTrip
use tiny_os64v.Base.{
  ℕ, zero, suc, ◌+◌, ◌-◌, ◌*◌, ◌/◌, ◌^◌, ◌%◌, bit_and, bit_or, List, [], ◌∷◌, Bool, true, false,
  ◌||◌, String, ltb, leb, ◌==◌, if◌then◌else◌, ◌<<<◌, ◌>>>◌, u32, get_or,
}
use tiny_os64v.Hda.Types.{StreamFormat, SampleRate, BitDepth}

-- The numbers of the enumerators.
abbrev pub rate_code : SampleRate → ℕ
rate_code SampleRate.invalid = 0
rate_code SampleRate.r16000 = 1
rate_code SampleRate.r22050 = 2
rate_code SampleRate.r32000 = 3
rate_code SampleRate.r44100 = 4
rate_code SampleRate.r48000 = 5
rate_code SampleRate.r96000 = 6
rate_code SampleRate.r192000 = 7

abbrev pub depth_code : BitDepth → ℕ
depth_code BitDepth.invalid = 0
depth_code BitDepth.b8 = 1
depth_code BitDepth.b16 = 2
depth_code BitDepth.b20 = 3
depth_code BitDepth.b24 = 4
depth_code BitDepth.b32 = 5

-- The first `switch` of `set`, on the value so far.
unfoldable pub with_depth : BitDepth → ℕ → ℕ
with_depth BitDepth.invalid v = v
with_depth BitDepth.b8 v = v
with_depth BitDepth.b16 v = bit_or v (1 <<< 4)
with_depth BitDepth.b20 v = bit_or v (2 <<< 4)
with_depth BitDepth.b24 v = bit_or v (3 <<< 4)
with_depth BitDepth.b32 v = bit_or v (4 <<< 4)

-- The three fields that the second `switch` of `set` chooses.
pub record RateFields : Type 0 where
  pub base_rate : ℕ
  pub multiplier : ℕ
  pub divisor : ℕ

abbrev rate_fields : ℕ → ℕ → ℕ → RateFields
rate_fields b m d = record { base_rate = b; multiplier = m; divisor = d }

unfoldable pub fields_of : SampleRate → RateFields
fields_of SampleRate.invalid = rate_fields 0 0 0
fields_of SampleRate.r16000 = rate_fields 0 0 2
fields_of SampleRate.r22050 = rate_fields 1 0 1
fields_of SampleRate.r32000 = rate_fields 0 1 2
fields_of SampleRate.r44100 = rate_fields 1 0 0
fields_of SampleRate.r48000 = rate_fields 0 0 0
fields_of SampleRate.r96000 = rate_fields 0 1 0
fields_of SampleRate.r192000 = rate_fields 0 3 0

unfoldable pub with_rate : RateFields → ℕ → ℕ
with_rate f v =
    bit_or (bit_or (bit_or v (f.base_rate <<< 14)) (f.multiplier <<< 11)) (f.divisor <<< 8)

-- `StreamFormat::set`: whether it was set, and the format after it. The `default` of the switch on
-- the bit depth is not reached.
unfoldable pub set_format : SampleRate → BitDepth → ℕ → StreamFormat → Bool × StreamFormat
set_format sr bits channels f =
    if rate_code sr == 0
    then (false, f)
    else if depth_code bits == 0
    then (false, f)
    else if ltb 16 channels
    then (false, f)
    else if channels == 0
    then (false, f)
    else (true, record { value = with_rate (fields_of sr) (with_depth bits (channels - 1)) })

unfoldable pub rate_of : ℕ → SampleRate
rate_of rate =
    if rate == 16000
    then SampleRate.r16000
    else if rate == 32000
    then SampleRate.r32000
    else if rate == 44100
    then SampleRate.r44100
    else if rate == 48000
    then SampleRate.r48000
    else if rate == 96000
    then SampleRate.r96000
    else if rate == 192000
    then SampleRate.r192000
    else SampleRate.invalid

unfoldable pub get_sample_rate : StreamFormat → SampleRate
get_sample_rate f =
    let base_rate = bit_and (f.value >>> 14) 0x1 in
    let multiplier = bit_and (f.value >>> 11) 0x7 in
    let divisor = bit_and (f.value >>> 8) 0x7 in
    let rate : ℕ = if base_rate == 0 then 48000 else 44100 in
    rate_of (u32 (rate * (multiplier + 1)) / (divisor + 1))

unfoldable pub depth_of : ℕ → BitDepth
depth_of v =
    if v == 0
    then BitDepth.b8
    else if v == 1
    then BitDepth.b16
    else if v == 2
    then BitDepth.b20
    else if v == 3
    then BitDepth.b24
    else if v == 4
    then BitDepth.b32
    else BitDepth.invalid

unfoldable pub get_bit_depth : StreamFormat → BitDepth
get_bit_depth f = depth_of (bit_and (f.value >>> 4) 0x7)

unfoldable pub get_channels : StreamFormat → ℕ
get_channels f = bit_and f.value 0xF + 1

abbrev pub depth_strings : List String
depth_strings = "Invalid" ∷ "8 bits" ∷ "16 bits" ∷ "20 bits" ∷ "24 bits" ∷ "32 bits" ∷ []

unfoldable pub depth_to_string : BitDepth → String
depth_to_string d =
    if leb 6 (depth_code d) then "Invalid" else get_or depth_strings (depth_code d) "Invalid"

abbrev pub rate_strings : List String
rate_strings = "Invalid" ∷ "16000" ∷ "22050" ∷ "32000" ∷ "44100" ∷ "48000" ∷ "96000" ∷ "192000" ∷ []

unfoldable pub rate_to_string : SampleRate → String
rate_to_string sr =
    if leb 8 (rate_code sr) then "Invalid" else get_or rate_strings (rate_code sr) "Invalid"
