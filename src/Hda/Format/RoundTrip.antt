-- ===== src/Hda/Format/RoundTrip.antt =====
-- What `StreamFormat::set` stores is read back, but for one sample rate.
use tiny_os64v.Base.{
  ℕ, ◌+◌, ◌-◌, ◌≤◌, Bool, true, false, ◌&&◌, ltb, ◌==◌, if◌then◌else◌, ◌≡◌, ◌≢◌, refl, arith, ap,
  ◌∙◌, ==_iff, sym, all_below, all_below-at,
}
use tiny_os64v.Hda.Types.{StreamFormat, SampleRate, BitDepth}
use tiny_os64v.Hda.Format.{
  rate_code, depth_code, with_depth, fields_of, with_rate, set_format, rate_of, get_sample_rate,
  depth_of, get_bit_depth, get_channels,
}

-- The sample rate that a format is read as: the `switch` of `getSampleRate` lacks 22050.
abbrev pub readable : SampleRate → SampleRate
readable SampleRate.r22050 = SampleRate.invalid
readable sr = sr

abbrev stored : SampleRate → BitDepth → ℕ → StreamFormat
stored sr bits c = record { value = with_rate (fields_of sr) (with_depth bits c) }

-- The three fields of a stored format, for `c + 1` channels.
abbrev reads_back : SampleRate → BitDepth → ℕ → Bool
reads_back sr bits c =
    (rate_code (get_sample_rate (stored sr bits c)) == rate_code (readable sr))
    && (depth_code (get_bit_depth (stored sr bits c)) == depth_code bits)
    && (get_channels (stored sr bits c) == c + 1)

table :
    (sr : SampleRate) (bits : BitDepth)
    → depth_code bits ≢ 0
    → rate_code sr ≢ 0
    → all_below 16 (reads_back sr bits) ≡ true
unfolding with_depth fields_of with_rate rate_of get_sample_rate depth_of get_bit_depth get_channels
table SampleRate.invalid BitDepth.invalid hb hs = absurd (hb refl)
table SampleRate.invalid _ hb hs = absurd (hs refl)
table _ BitDepth.invalid hb hs = absurd (hb refl)
table _ _ hb hs = refl

rate_of_code : ℕ → SampleRate
rate_of_code n =
    if n == 1
    then SampleRate.r16000
    else if n == 2
    then SampleRate.r22050
    else if n == 3
    then SampleRate.r32000
    else if n == 4
    then SampleRate.r44100
    else if n == 5
    then SampleRate.r48000
    else if n == 6
    then SampleRate.r96000
    else if n == 7
    then SampleRate.r192000
    else SampleRate.invalid

rate_of_code-rate_code : (a : SampleRate) → rate_of_code (rate_code a) ≡ a
unfolding rate_of_code
rate_of_code-rate_code SampleRate.invalid = refl
rate_of_code-rate_code _ = refl

rate_code-injective : (a b : SampleRate) → rate_code a ≡ rate_code b → a ≡ b
rate_code-injective a b h =
    sym (rate_of_code-rate_code a) ∙ ap rate_of_code h ∙ rate_of_code-rate_code b

depth_of_code : ℕ → BitDepth
depth_of_code n =
    if n == 1
    then BitDepth.b8
    else if n == 2
    then BitDepth.b16
    else if n == 3
    then BitDepth.b20
    else if n == 4
    then BitDepth.b24
    else if n == 5
    then BitDepth.b32
    else BitDepth.invalid

depth_of_code-depth_code : (a : BitDepth) → depth_of_code (depth_code a) ≡ a
unfolding depth_of_code
depth_of_code-depth_code BitDepth.invalid = refl
depth_of_code-depth_code _ = refl

depth_code-injective : (a b : BitDepth) → depth_code a ≡ depth_code b → a ≡ b
depth_code-injective a b h =
    sym (depth_of_code-depth_code a) ∙ ap depth_of_code h ∙ depth_of_code-depth_code b

split_tests : (a b c : Bool) → (a && b && c) ≡ true → (a ≡ true) × (b ≡ true) × (c ≡ true)
split_tests a b c h = ground arith

-- Of a valid rate and depth and 1 to 16 channels, `set` stores a format of which channels and bit
-- depth are read back, and the sample rate too unless it is 22050, which is read back as invalid.
pub set_format-RoundTrip :
    (sr : SampleRate) (bits : BitDepth) (channels : ℕ) (f : StreamFormat)
    → rate_code sr ≢ 0
    → depth_code bits ≢ 0
    → channels ≢ 0
    → channels ≤ 16
    → let r = set_format sr bits channels f in
      (r.0 ≡ true)
      × (get_sample_rate r.1 ≡ readable sr)
      × (get_bit_depth r.1 ≡ bits)
      × (get_channels r.1 ≡ channels)
unfolding set_format
set_format-RoundTrip sr bits channels f hs hb hc h16 =
    let (s, b, c) =
      split_tests _ _ _
        (all_below-at 16 (reads_back sr bits) (channels - 1) (table sr bits hb hs) (omega arith)) in
    rw (test_eq hs, test_eq hb, not_over h16, test_eq hc)
      (
        refl,
        rate_code-injective _ _ ((==_iff _ _).0 s),
        depth_code-injective _ _ ((==_iff _ _).0 b),
        (==_iff _ _).0 c ∙ omega arith,
      )
  where
    test_eq : {n : ℕ} → n ≢ 0 → (n == 0) ≡ false
    test_eq h = ground arith

    not_over : channels ≤ 16 → ltb 16 channels ≡ false
    not_over h = ground arith
