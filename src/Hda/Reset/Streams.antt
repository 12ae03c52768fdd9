-- ===== src/Hda/Reset/Streams.antt =====
-- When `reset` of src/hdacodec.h returns, and where it finds the stream registers.
use tiny_os64v.Base.{
  ℕ, zero, suc, ◌+◌, ◌*◌, ◌/◌, ◌%◌, ◌^◌, ◌<◌, bit_and, u16, ap, bit_or, List, [], ◌∷◌, Option, some,
  Bool, true, false, not, ◌==◌, u32, ◌≡◌, refl, arith, codes, Bool-cases, inl, inr,
}
use tiny_os64v.Bits.{bit_and_mask}
use tiny_os64v.Helpers.{strncmp_chars}
use tiny_os64v.Hda.Regs.{regs, find_reg, get_reg}
use tiny_os64v.Hda.Types.{Codec}
use tiny_os64v.Hda.World.{Event, Platform, World, print, read16, read32, write32}
use tiny_os64v.Hda.Verb.{read_reg, read_found, write_reg, write_found}
use tiny_os64v.Hda.Reset.{with_descriptors, await_reset, set_descriptors, finish_reset, reset}

module _ (p : Platform) where
  abbrev pub waited : ℕ → List Event → List Event
  waited zero log = log
  waited (suc j) log = waited j (Event.read 4 0x08 ∷ log)

  -- The device reports that it has left its reset.
  abbrev pub has_left : List Event → Bool
  has_left log = not (bit_and (u32 (p.register log 4 0x08)) 0x01 == 0)

  -- The history at the wait: the reset bit is cleared and then set.
  abbrev pub begun : List Event → List Event
  begun log =
      let start = Event.say "Codec reset .. \n\r" [] ∷ log in
      let off =
        Event.write 4 0x08 (u32 (bit_and (u32 (u32 (p.register start 4 0x08))) 0xFFFFFFFE))
        ∷ Event.read 4 0x08
        ∷ start in
      let next = Event.say "Codec reset de-assert .. \n\r" [] ∷ off in
      Event.write 4 0x08 (u32 (bit_or (u32 (u32 (p.register next 4 0x08))) 1))
      ∷ Event.read 4 0x08
      ∷ next

  -- The capabilities that the device reports behind `j` reads of its state.
  abbrev pub capabilities_behind : (j : ℕ) → List Event → ℕ
  capabilities_behind j log =
      u16 (p.register (Event.say "Codec reset complete .. \n\r" [] ∷ waited j (begun log)) 2 0x00)

  -- The number of input streams, in bits 11..8 of the capabilities.
  abbrev pub input_streams : (capabilities : ℕ) → ℕ
  input_streams capabilities = capabilities / 2 ^ 8 % 2 ^ 4

  -- The stream registers of the codec that a reset leaves which begins behind history `log`: the
  -- state is read until the device has left its reset, and the capabilities are read then. The
  -- registers of the input streams are from 0x80 on, and those of the first output stream behind as
  -- many input streams as the capabilities tell.
  pub record IsReset (log : List Event) (r : Option Codec) : Type 0 where
    pub codec : Codec
    pub returns : r ≡ some codec
    pub j : ℕ
    pub before : (i : ℕ) → i < j → has_left (waited i (begun log)) ≡ false
    pub left : has_left (waited j (begun log)) ≡ true
    pub input : codec.input_descriptor ≡ 0x80
    pub output :
        codec.output_descriptor ≡ 0x80 + 0x20 * input_streams (capabilities_behind (suc j) log)

  read_gctl :
      (w : World)
      → read_reg p (codes "gctl") w
        ≡ (u32 (p.register w.log 4 0x08), record w { log = Event.read 4 0x08 ∷ w.log })
  unfolding read_reg read_found get_reg find_reg regs strncmp_chars read32
  read_gctl w = refl

  read_gcap :
      (w : World)
      → read_reg p (codes "gcap") w
        ≡ (u16 (p.register w.log 2 0x00), record w { log = Event.read 2 0x00 ∷ w.log })
  unfolding read_reg read_found get_reg find_reg regs strncmp_chars read16
  read_gcap w = refl

  -- How the wait ends: at the first read that finds the device out of its reset.
  record Awaits (log : List Event) (r : Bool × World) : Type 0 where
    j : ℕ
    before : (i : ℕ) → i < j → has_left (waited i log) ≡ false
    left : has_left (waited j log) ≡ true
    ends : r ≡ (true, record { log = waited (suc j) log })

  -- The test of the loop.
  abbrev stays : List Event → Bool
  stays log = bit_and (u32 (p.register log 4 0x08)) 0x01 == 0

  later-Awaits :
      (log : List Event) (r : Bool × World)
      → stays log ≡ true
      → Awaits (Event.read 4 0x08 ∷ log) r
      → Awaits log r
  later-Awaits log r still a = record {
    j = suc a.j;
    before = λ i. elim i as (λ i. i < suc a.j → has_left (waited i log) ≡ false) [
      | zero ↦ λ h. ap not still
      | suc i ↦ λ h. a.before i (omega arith)
    ];
    left = a.left;
    ends = a.ends;
  }

  await_reset-Awaits :
      (fuel k : ℕ) (w : World)
      → k < fuel
      → has_left (waited k w.log) ≡ true
      → Awaits w.log (await_reset p fuel w)
  unfolding await_reset
  await_reset-Awaits zero k w lt h = absurd (omega arith)
  await_reset-Awaits (suc fuel) zero w lt h =
      let left : stays w.log ≡ false = ground arith in
      rw (read_gctl w, left)
        (record { j = 0; before = λ i h. absurd (omega arith); left = h; ends = refl })
  await_reset-Awaits (suc fuel) (suc k) w lt h =
      let next = record w { log = Event.read 4 0x08 ∷ w.log } in
      rw (read_gctl w) (elim (Bool-cases (stays w.log)) [
        | inl still ↦
            rw still (later-Awaits w.log _ still (await_reset-Awaits fuel k next (omega arith) h))
        | inr left ↦ rw left (record {
          j = 0;
          before = λ i h. absurd (omega arith);
          left = ap not left;
          ends = refl;
        })
      ])

  finish-IsReset :
      (c : Codec) (log : List Event) (r : Bool × World)
      → Awaits (begun log) r
      → IsReset log (finish_reset p c r.0 r.1).0
  unfolding finish_reset set_descriptors with_descriptors print
  finish-IsReset c log r a =
      let w : World = record {
        log = Event.say "Codec reset complete .. \n\r" [] ∷ waited (suc a.j) (begun log);
      } in
      rw (a.ends, read_gcap w)
        (record {
          codec = _;
          returns = refl;
          j = a.j;
          before = a.before;
          left = a.left;
          input = refl;
          output = ap (λ n. 0x80 + 0x20 * n) (bit_and_mask 4 _);
        })

  -- With the device reporting, after `j` reads of its state and with `j` below the fuel, that it
  -- has left its reset, `reset` returns, with the stream registers where `IsReset` says: those of
  -- the output stream behind the input streams that the device reports.
  pub reset-IsReset :
      (fuel j : ℕ) (c : Codec) (w : World)
      → j < fuel
      → has_left (waited j (begun w.log)) ≡ true
      → IsReset w.log (reset p fuel c w).0
  unfolding reset read_reg read_found write_reg write_found get_reg find_reg regs strncmp_chars
      read32 write32 print
  reset-IsReset fuel j c w lt h =
      finish-IsReset c w.log _ (await_reset-Awaits fuel j (record w { log = begun w.log }) lt h)
