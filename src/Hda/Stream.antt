-- ===== src/Hda/Stream.antt =====
-- The pin, node and output stream operations of src/hdacodec.cpp.
pub mod Writes
use tiny_os64v.Base.{
  ℕ, ◌+◌, ◌*◌, ◌^◌, bit_and, bit_or, List, [], ◌∷◌, Option, none, some, Bool, true, false, not,
  ◌&&◌, ◌==◌, if◌then◌else◌, ◌<<<◌, ◌>>>◌, u32, u64, codes,
}
use tiny_os64v.Print.Format.{word}
use tiny_os64v.Hda.Types.{Widget, WidgetType, Codec, StreamFormat}
use tiny_os64v.Hda.World.{
  Event, Platform, World, M, ◌>>=◌, ◌>>◌, pure, print, emit, write32, read32,
}
use tiny_os64v.Hda.Verb.{write_reg, verb}
use tiny_os64v.Hda.Collect.Decode.{is_pin_complex}
use tiny_os64v.Hda.Amps.{value_or_0}

unfoldable pub disable_interrupt : M (Unit {0})
disable_interrupt = do write_reg (codes "intctl") 0; pure tt

unfoldable pub turn_off_corb_rirb_dmapos : M (Unit {0})
turn_off_corb_rirb_dmapos = do
  write_reg (codes "corbrp") 0
  write_reg (codes "rirbctl") 0
  write_reg (codes "dplbase") 0
  pure tt

abbrev pub is_io : WidgetType → Bool
is_io WidgetType.output = true
is_io WidgetType.input = true
is_io _ = false

abbrev pub has_value : Option ℕ → Bool
has_value none = false
has_value (some v) = true

module _ (p : Platform) where
  -- The write of a new pin control, behind the old one's response.
  unfoldable pub set_pin_control : ℕ → (ℕ → ℕ) → Option ℕ → M Bool
  set_pin_control id change none = pure false
  set_pin_control id change (some ctrl) = do
    r ← verb p id 0x707 (change (bit_and ctrl 0x07))
    pure (has_value r)

  unfoldable pub disable_pin_widget : Widget → M Bool
  disable_pin_widget w =
      if not (is_pin_complex w.type)
      then pure false
      else (do ctrl ← verb p w.id 0xF07 0; set_pin_control w.id (λ v. v) ctrl)

  abbrev pub pin_enabled : Widget → ℕ → ℕ
  pin_enabled w v =
      let out = bit_or v (1 <<< 6) in if w.headphone_driver then bit_or out (1 <<< 7) else out

  unfoldable pub enable_pin_widget : Widget → M Bool
  enable_pin_widget w =
      if not (is_pin_complex w.type)
      then pure false
      else (do ctrl ← verb p w.id 0xF07 0; set_pin_control w.id (pin_enabled w) ctrl)

  unfoldable pub set_io_widget_format : Widget → StreamFormat → M Bool
  set_io_widget_format w format =
      if not (is_io w.type)
      then pure false
      else (do ctrl ← verb p w.id 0x200 (bit_and format.value 0xFFFF); pure (has_value ctrl))

  abbrev pub to_format : Option ℕ → Option StreamFormat
  to_format none = none
  to_format (some v) = some (record { value = v })

  unfoldable pub get_io_widget_format : Widget → M (Option StreamFormat)
  get_io_widget_format w =
      if not (is_io w.type)
      then pure none
      else (do ctrl ← verb p w.id 0xA00 0; pure (to_format ctrl))

  -- `setOutputNode`, from the last response on: each missing response ends it.
  unfoldable pub set_volume : ℕ → ℕ → Option ℕ → M Bool
  set_volume node max_volume none = pure false
  set_volume node max_volume (some v) = do
    r ← verb p node 0x300 (bit_or max_volume 0xF000)
    pure (has_value r)

  unfoldable pub set_stream : ℕ → Option ℕ → M Bool
  set_stream node none = pure false
  set_stream node (some amp_cap) = do
    r ← verb p node 0x706 0x10
    set_volume node (bit_and amp_cap 0x7F) r

  unfoldable pub set_output_node : ℕ → M Bool
  set_output_node node = do r ← verb p node 0xF00 0x12; set_stream node r

  unfoldable pub get_play_pos : Codec → M ℕ
  get_play_pos c = read32 p (c.output_descriptor + 0x04)

unfoldable pub output_stream_turn_off : Codec → M (Unit {0})
output_stream_turn_off c = write32 c.input_descriptor 0x00140000

unfoldable pub output_stream_turn_on : Codec → M (Unit {0})
output_stream_turn_on c = do
  write_reg (codes "dplbase") (bit_or c.dma_position_buffer 1)
  write_reg (codes "dpubase") 0
  write32 c.output_descriptor 0x00140002
  print "Stream %d activated\n\r" (word (bit_and (0x00140002 >>> 20) 0xF) ∷ [])

-- A store of 32 bits to word `i` of the descriptor list.
abbrev pub store_word : Codec → ℕ → ℕ → M (Unit {0})
store_word c i v = emit (Event.store 4 (c.descriptor_buffer + 4 * i) (u32 v))

unfoldable pub output_stream_set_descriptor_list : Codec → M (Unit {0})
output_stream_set_descriptor_list c = do
  write32 (c.output_descriptor + 0x18) c.descriptor_buffer
  write32 (c.output_descriptor + 0x18 + 4) 0
  write32 (c.output_descriptor + 0x0C) 1
  store_word c 0 c.audio_buffer
  store_word c 1 0
  store_word c 2 (4096 * 16)
  store_word c 3 0
  store_word c 4 c.audio_buffer
  store_word c 5 0
  store_word c 6 (4096 * 16)
  store_word c 7 0

unfoldable pub output_stream_length : Codec → ℕ → M (Unit {0})
output_stream_length c length = write32 (c.output_descriptor + 0x08) length

unfoldable pub output_stream_format : Codec → StreamFormat → M (Unit {0})
output_stream_format c format = write32 (c.output_descriptor + 0x12) format.value

unfoldable pub play_sound : Codec → ℕ → StreamFormat → M (Unit {0})
play_sound c length format = do
  output_stream_set_descriptor_list c
  output_stream_length c length
  output_stream_format c format
  output_stream_turn_on c

unfoldable pub stop_sound : Codec → M (Unit {0})
stop_sound c = output_stream_turn_off c
