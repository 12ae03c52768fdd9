-- ===== src/Pci/Address.antt =====
-- The configuration address of src/pci.cpp, and what `setPCICommandReg` writes there.
use tiny_os64v.Base.{
  ℕ, ◌+◌, ◌*◌, ◌/◌, ◌%◌, ◌^◌, ◌<◌, ◌∷◌, [], bit_and, bit_or, u16, u32, ◌≡◌, refl, arith,
}
use tiny_os64v.Bits.{bit_or_add, bit_or_comm, bit_and_high, bit_and_mask}
use tiny_os64v.Print.Format.{word}
use tiny_os64v.Pci.{
  PortEvent, Ports, Machine, config_address, read_word, write_word, set_command_reg,
}
use tiny_os64v.Pci.Search.{Configures, register}

-- The arguments that `uint8_t` values of a place on the bus can be.
pub record IsPlace (bus slot func offset : ℕ) : Type 0 where
  pub bus_fits : bus < 256
  pub slot_fits : slot < 32
  pub func_fits : func < 8
  pub offset_fits : offset < 256

masked_offset : (offset : ℕ) → offset < 256 → bit_and offset 0xFC ≡ offset / 4 * 4
masked_offset offset h = omega (arith, bit_and_high 2 offset 63, bit_and_mask 6 (offset / 4))

sum_of_fields :
    (bus slot func offset : ℕ)
    → IsPlace bus slot func offset
    → config_address bus slot func offset
      ≡ 2 ^ 31 + (bus * 2 ^ 16 + slot * 2 ^ 11 + func * 2 ^ 8 + offset / 4 * 4)
unfolding config_address
sum_of_fields bus slot func offset h =
    let fields = bus * 2 ^ 16 + slot * 2 ^ 11 + func * 2 ^ 8 + offset / 4 * 4 in
    rw
      (
        masked_offset offset h.offset_fits,
        bit_or_add 16 (bus * 2 ^ 16) (slot * 2 ^ 11) (omega arith) (omega arith),
        bit_or_add 11 (bus * 2 ^ 16 + slot * 2 ^ 11) (func * 2 ^ 8) (omega arith) (omega arith),
        bit_or_add 8 (bus * 2 ^ 16 + slot * 2 ^ 11 + func * 2 ^ 8) (offset / 4 * 4) (omega arith)
            (omega arith),
        bit_or_comm fields 0x80000000,
        bit_or_add 31 0x80000000 fields (omega arith) (omega arith),
      )
      refl

-- The configuration address of a place has the enable bit, the bus in bits 23..16, the device in bits
-- 15..11, the function in bits 10..8 and the register, in steps of four bytes, below them.
pub config_address_fields :
    (bus slot func offset : ℕ)
    → IsPlace bus slot func offset
    → let address = config_address bus slot func offset in
      (address / 2 ^ 24 ≡ 0x80)
      × (address / 2 ^ 16 % 256 ≡ bus)
      × (address / 2 ^ 11 % 32 ≡ slot)
      × (address / 2 ^ 8 % 8 ≡ func)
      × (address % 256 ≡ offset / 4 * 4)
config_address_fields bus slot func offset h =
    rw (sum_of_fields bus slot func offset h) (omega arith)

-- The upper half of a register over a new lower half.
new_half :
    (reg v : ℕ)
    → reg < 2 ^ 32
    → v < 65536
    → u32 (bit_or (bit_and reg 0xFFFF0000) (u16 v)) ≡ reg / 2 ^ 16 * 2 ^ 16 + v
new_half reg v hr hv =
    let half : bit_and reg 0xFFFF0000 ≡ reg / 2 ^ 16 * 2 ^ 16 =
      omega (arith, bit_and_high 16 reg 0xFFFF, bit_and_mask 16 (reg / 2 ^ 16)) in
    let low : u16 v ≡ v = omega (arith, hv) in
    rw (half, low, bit_or_add 16 (reg / 2 ^ 16 * 2 ^ 16) v (omega arith) (omega arith))
      (omega arith)

-- On a machine whose data port returns the configuration register that the address port names,
-- `setPCICommandReg` writes one register: the command register of the place gets the value, and the
-- status register above it gets back what was read of it. All its other writes name the register.
set_command_reg_lem :
    (p : Machine) (config : ℕ → ℕ) (bus device func value : ℕ) (w : Ports)
    → Configures p config
    → value < 65536
    → let address = u32 (config_address bus device func 4) in
      let old = register config bus device func 4 in
      (set_command_reg p bus device func value w).1.log
      ≡ PortEvent.say "PCI command reg readback: %x\n\r" (word old ∷ [])
        ∷ PortEvent.inl 0xCFC
        ∷ PortEvent.outl 0xCF8 address
        ∷ PortEvent.outl 0xCFC (old / 2 ^ 16 * 2 ^ 16 + value)
        ∷ PortEvent.outl 0xCF8 address
        ∷ PortEvent.inl 0xCFC
        ∷ PortEvent.outl 0xCF8 address
        ∷ w.log
unfolding set_command_reg read_word write_word
set_command_reg_lem p config bus device func value w c h =
    rw (c.reads, c.reads, new_half (register config bus device func 4) value (omega arith) h) refl
