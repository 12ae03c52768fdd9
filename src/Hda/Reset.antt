-- ===== src/Hda/Reset.antt =====
-- `reset` and the constructor of `HDACodec` in src/hdacodec.h. The loops that only pass time are
-- left out.
pub mod Streams
use tiny_os64v.Base.{
  ℕ, zero, suc, ◌+◌, ◌-◌, ◌*◌, ◌/◌, ◌^◌, ◌%◌, bit_and, bit_or, List, [], ◌∷◌, Option, none, some,
  Bool, true, false, String, ◌==◌, if◌then◌else◌, ◌>>>◌, u16, u32, codes,
}
use tiny_os64v.Print.Format.{word}
use tiny_os64v.Hda.Types.{Codec}
use tiny_os64v.Hda.World.{Event, Platform, World, M, ◌>>=◌, ◌>>◌, pure, print, emit, record_event}
use tiny_os64v.Hda.Verb.{read_reg, write_reg}
use tiny_os64v.Hda.Collect.{collect_widget_information}

-- Where the stream registers start, by the capabilities.
unfoldable pub with_descriptors : ℕ → Codec → Codec
with_descriptors capabilities c = record c {
  input_descriptor = 0x80;
  output_descriptor = 0x80 + 0x20 * bit_and (capabilities >>> 8) 0xF;
}

module _ (p : Platform) where
  -- The wait for the device to leave its reset; `false` means that the fuel ran out.
  unfoldable pub await_reset : ℕ → M Bool
  await_reset zero = pure false
  await_reset (suc fuel) = do
    gctl ← read_reg p (codes "gctl")
    if bit_and gctl 0x01 == 0 then await_reset fuel else pure true

  -- What follows the wait.
  unfoldable pub set_descriptors : Codec → M Codec
  set_descriptors c = do
    print "Codec reset complete .. \n\r" []
    capabilities ← read_reg p (codes "gcap")
    print "Codec reports %d input and %d output streams\n\r"
        (word (bit_and (capabilities >>> 8) 0xF) ∷ word (bit_and (capabilities >>> 12) 0xF) ∷ [])
    pure (with_descriptors capabilities c)

  unfoldable pub finish_reset : Codec → Bool → M (Option Codec)
  finish_reset c false = pure none
  finish_reset c true = do c' ← set_descriptors c; pure (some c')

  -- `none` means that the device did not leave its reset within `fuel` reads of its state.
  unfoldable pub reset : ℕ → Codec → M (Option Codec)
  reset fuel c = do
    print "Codec reset .. \n\r" []
    gctl ← read_reg p (codes "gctl")
    write_reg (codes "gctl") (bit_and (u32 gctl) 0xFFFFFFFE)
    print "Codec reset de-assert .. \n\r" []
    gctl' ← read_reg p (codes "gctl")
    write_reg (codes "gctl") (bit_or (u32 gctl') 1)
    done ← await_reset fuel
    finish_reset c done

  -- `m_allocatePages` of memory below 4 GB; the address is used whatever the status.
  unfoldable pub allocate : ℕ → String → String → M ℕ
  allocate pages failed allocated w =
      let (status, address) = p.allocate_pages w.log pages in
      let w' = record_event (Event.allocate pages) w in
      (if status == 0
          then (print allocated (word address ∷ []) >> pure address)
          else (print failed [] >> pure address))
        w'

  -- The loop that fills the audio buffer, `left` samples from sample `i` on.
  unfoldable pub fill_audio : (left i address : ℕ) → M (Unit {0})
  fill_audio zero i address = pure tt
  fill_audio (suc left) i address = do
    emit (Event.store 2 (address + 2 * i) (u16 (i * 20)))
    fill_audio left (i + 1) address

  -- The constructor. The descriptors are those that the memory of the object happens to hold.
  unfoldable pub new_codec : (input_descriptor output_descriptor : ℕ) → M Codec
  new_codec input_descriptor output_descriptor = do
    descriptor_buffer ←
        allocate 1 "Failed to allocate memory for codec descriptor buffer!\n\r"
          "Allocated memory for codec buffer at 0x%x!\n\r"
    audio_buffer ←
        allocate 16 "Failed to allocate memory for codec audio buffer!\n\r"
          "Allocated memory for codec audio at 0x%x!\n\r"
    fill_audio (16 * 4096 / 2) 0 audio_buffer
    dma_position_buffer ←
        allocate 1 "Failed to allocate memory for codec dma position buffer!\n\r"
          "Allocated memory for codec dma position buffer at 0x%x!\n\r"
    collect_widget_information p (record {
      widgets = [];
      descriptor_buffer = descriptor_buffer;
      audio_buffer = audio_buffer;
      dma_position_buffer = dma_position_buffer;
      input_descriptor = input_descriptor;
      output_descriptor = output_descriptor;
    })
