-- ===== src/Hda/Stream/Writes.antt =====
-- What the device's registers and the memory hold behind `playSound` and `stopSound` of
-- src/hdacodec.h.
use tiny_os64v.Base.{
  ℕ, ◌+◌, ◌≤◌, bit_or, List, [], ◌∷◌, Option, none, some, if◌then◌else◌, ◌==◌, u32, ◌≡◌, ◌≢◌, arith,
}
use tiny_os64v.Helpers.{strncmp_chars}
use tiny_os64v.Hda.Regs.{regs, find_reg, get_reg}
use tiny_os64v.Hda.Types.{Codec, StreamFormat}
use tiny_os64v.Hda.World.{Event, World, emit, print, write32}
use tiny_os64v.Hda.Verb.{write_reg, write_found}
use tiny_os64v.Hda.Stream.{
  output_stream_turn_off, output_stream_turn_on, output_stream_set_descriptor_list,
  output_stream_length, output_stream_format, play_sound, stop_sound,
}

-- What the latest write to a register put there, and the latest store to an address.
abbrev pub last_write : ℕ → List Event → Option ℕ
last_write offset [] = none
last_write offset (Event.write width o v ∷ log) =
    if o == offset then some v else last_write offset log
last_write offset (_ ∷ log) = last_write offset log

abbrev pub last_store : ℕ → List Event → Option ℕ
last_store address [] = none
last_store address (Event.store width a v ∷ log) =
    if a == address then some v else last_store address log
last_store address (_ ∷ log) = last_store address log

-- An entry of the descriptor list at `address`: the whole audio buffer, and no flag.
pub record IsEntry (address : ℕ) (c : Codec) (log : List Event) : Type 0 where
  pub low : last_store address log ≡ some (u32 c.audio_buffer)
  pub high : last_store (address + 4) log ≡ some 0
  pub size : last_store (address + 8) log ≡ some 65536
  pub flags : last_store (address + 12) log ≡ some 0

-- What the registers of the output stream and the memory hold while a sound plays.
pub record IsPlaying (c : Codec) (length : ℕ) (log : List Event) : Type 0 where
  pub control : last_write c.output_descriptor log ≡ some 0x00140002
  pub list : last_write (c.output_descriptor + 0x18) log ≡ some (u32 c.descriptor_buffer)
  pub last_entry : last_write (c.output_descriptor + 0x0C) log ≡ some 1
  pub bytes : last_write (c.output_descriptor + 0x08) log ≡ some (u32 length)
  pub positions : last_write 0x70 log ≡ some (u32 (bit_or c.dma_position_buffer 1))
  pub first : IsEntry c.descriptor_buffer c log
  pub second : IsEntry (c.descriptor_buffer + 16) c log

-- Behind `playSound` the descriptor list stands in memory, with two entries for the whole audio
-- buffer, and the output stream's registers, none below 0x80, hold its address, the index of its
-- last entry, and the given length; the stream runs.
pub play_sound-IsPlaying :
    (c : Codec) (length : ℕ) (format : StreamFormat) (w : World)
    → 0x80 ≤ c.output_descriptor
    → IsPlaying c length (play_sound c length format w).1.log
unfolding play_sound output_stream_set_descriptor_list output_stream_length output_stream_format
    output_stream_turn_on write32 emit print write_reg write_found get_reg find_reg regs
    strncmp_chars
play_sound-IsPlaying c length format w h = record {
  control = ground arith;
  list = ground arith;
  last_entry = ground arith;
  bytes = ground arith;
  positions = ground arith;
  first = record {
    low = ground arith;
    high = ground arith;
    size = ground arith;
    flags = ground arith;
  };
  second = record {
    low = ground arith;
    high = ground arith;
    size = ground arith;
    flags = ground arith;
  };
}

-- `stopSound` leaves the control register of the output stream as `playSound` set it, running, if
-- the input stream's is another.
pub stop_sound_runs_on :
    (c : Codec) (length : ℕ) (format : StreamFormat) (w : World)
    → c.input_descriptor ≢ c.output_descriptor
    → last_write c.output_descriptor (stop_sound c (play_sound c length format w).1).1.log
      ≡ some 0x00140002
unfolding stop_sound output_stream_turn_off play_sound output_stream_turn_on write32 print
stop_sound_runs_on c length format w other = ground arith
