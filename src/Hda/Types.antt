-- ===== src/Hda/Types.antt =====
-- The data types of src/hdacodec.h.
use tiny_os64v.Base.{ℕ, List, [], Bool, false}

pub data WidgetType : Type 0 where
  unknown input output mixer selector pin_complex beep_gen vendor : WidgetType

pub data DefaultDevice : Type 0 where
  unknown line_out speaker line_in mic_in headphone_out spdif_in spdif_out : DefaultDevice

pub data Location : Type 0 where
  unknown front rear left right : Location

pub data SampleRate : Type 0 where
  invalid r16000 r22050 r32000 r44100 r48000 r96000 r192000 : SampleRate

pub data BitDepth : Type 0 where
  invalid b8 b16 b20 b24 b32 : BitDepth

pub record JackInfo : Type 0 where
  pub colour : ℕ
  pub location : Location
  pub is_physical : Bool
  pub is_internal : Bool

abbrev pub new_jack_info : JackInfo
new_jack_info = record {
  colour = 0;
  location = Location.unknown;
  is_physical = false;
  is_internal = false;
}

-- The arrays of two are the left side, 0, and the right side, 1.
pub record Amp : Type 0 where
  pub can_mute : Bool
  pub zero_db_setting : ℕ
  pub muted_0 : Bool
  pub muted_1 : Bool
  pub volume_0 : ℕ
  pub volume_1 : ℕ
  pub valid : Bool

abbrev pub new_amp : Amp
new_amp = record {
  can_mute = false;
  zero_db_setting = 0;
  muted_0 = false;
  muted_1 = false;
  volume_0 = 0;
  volume_1 = 0;
  valid = false;
}

pub record StreamFormat : Type 0 where
  pub value : ℕ

pub record Widget : Type 0 where
  pub id : ℕ
  pub type : WidgetType
  pub connection_list : List ℕ
  pub input_amps : List Amp
  pub output_amp : Amp
  pub channels : ℕ
  pub selection : ℕ
  pub default_device : DefaultDevice
  pub headphone_driver : Bool
  pub input_pin : Bool
  pub output_pin : Bool
  pub digital : Bool
  pub has_mute : Bool
  pub has_input_amp : Bool
  pub has_output_amp : Bool
  pub supported_streams : ℕ
  pub jack_info : JackInfo

-- `Widget(id)`; `Widget()` is `Widget(0)`.
abbrev pub new_widget : ℕ → Widget
new_widget id = record {
  id = id;
  type = WidgetType.unknown;
  connection_list = [];
  input_amps = [];
  output_amp = new_amp;
  channels = 0;
  selection = 0;
  default_device = DefaultDevice.unknown;
  headphone_driver = false;
  input_pin = false;
  output_pin = false;
  digital = false;
  has_mute = false;
  has_input_amp = false;
  has_output_amp = false;
  supported_streams = 0;
  jack_info = new_jack_info;
}

-- The state of an `HDACodec` object, but for its constant base address.
pub record Codec : Type 0 where
  pub widgets : List Widget
  pub descriptor_buffer : ℕ
  pub audio_buffer : ℕ
  pub dma_position_buffer : ℕ
  pub input_descriptor : ℕ
  pub output_descriptor : ℕ
