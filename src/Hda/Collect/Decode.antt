-- ===== src/Hda/Collect/Decode.antt =====
-- How `HDACodec::collectWidgetInformation` of src/hdacodec.cpp reads the words of a node.
use tiny_os64v.Base.{
  ℕ, ◌+◌, bit_and, bit_or, Bool, true, false, not, ◌==◌, if◌then◌else◌, ◌<<<◌, ◌>>>◌,
}
use tiny_os64v.Hda.Types.{Widget, WidgetType, DefaultDevice, Location, JackInfo}

abbrev pub is_pin_complex : WidgetType → Bool
is_pin_complex WidgetType.pin_complex = true
is_pin_complex _ = false

abbrev pub is_mixer : WidgetType → Bool
is_mixer WidgetType.mixer = true
is_mixer _ = false

unfoldable pub with_capabilities : ℕ → Widget → Widget
with_capabilities cap w = record w {
  digital = not (bit_and (cap >>> 9) 1 == 0);
  has_input_amp = not (bit_and (cap >>> 1) 1 == 0);
  has_output_amp = not (bit_and (cap >>> 2) 1 == 0);
}

-- The type of a node; other numbers leave it as it is.
unfoldable pub type_of_node : ℕ → WidgetType → WidgetType
type_of_node n old =
    if n == 0
    then WidgetType.output
    else if n == 1
    then WidgetType.input
    else if n == 2
    then WidgetType.mixer
    else if n == 3
    then WidgetType.selector
    else if n == 4
    then WidgetType.pin_complex
    else if n == 7
    then WidgetType.beep_gen
    else if n == 0x0F
    then WidgetType.vendor
    else old

unfoldable pub with_type : ℕ → Widget → Widget
with_type n w = record w { type = type_of_node n w.type }

unfoldable pub channels_of : ℕ → ℕ
channels_of cap = 1 + bit_or (bit_and (cap >>> 13) 0x07 <<< 1) (bit_and cap 1)

unfoldable pub with_channels : ℕ → Widget → Widget
with_channels cap w = record w { channels = channels_of cap }

unfoldable pub location_of : ℕ → Location → Location
location_of n old =
    if n == 1
    then Location.rear
    else if n == 2
    then Location.front
    else if n == 3
    then Location.left
    else if n == 4
    then Location.right
    else old

unfoldable pub device_of : ℕ → DefaultDevice → DefaultDevice
device_of n old =
    if n == 0
    then DefaultDevice.line_out
    else if n == 1
    then DefaultDevice.speaker
    else if n == 2
    then DefaultDevice.headphone_out
    else if n == 4
    then DefaultDevice.spdif_out
    else if n == 8
    then DefaultDevice.line_in
    else if n == 0xA
    then DefaultDevice.mic_in
    else if n == 0xC
    then DefaultDevice.spdif_in
    else old

-- The default configuration of a pin; the fields that the source reads and does not use are left
-- out.
unfoldable pub jack_of : ℕ → JackInfo → JackInfo
jack_of config jack = record jack {
  colour = bit_and (config >>> 12) 0xF;
  is_physical = if not (bit_and (config >>> 30) 0x3 == 1) then true else jack.is_physical;
  location = location_of (bit_and (config >>> 24) 0xF) jack.location;
}

unfoldable pub with_config : ℕ → Widget → Widget
with_config config w = record w {
  jack_info = jack_of config w.jack_info;
  default_device = device_of (bit_and (config >>> 20) 0xF) w.default_device;
}

unfoldable pub with_pin_cap : ℕ → Widget → Widget
with_pin_cap pin_cap w =
    let bits = bit_and pin_cap 0x30 in
    record w {
      output_pin = if not (bit_and bits 0x10 == 0) then true else w.output_pin;
      input_pin = if not (bit_and bits 0x20 == 0) then true else w.input_pin;
      headphone_driver = if not (bit_and (pin_cap >>> 3) 1 == 0) then true else w.headphone_driver;
    }
