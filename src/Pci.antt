-- ===== src/Pci.antt =====
-- src/pci.cpp: the PCI configuration space behind two ports, the command register, and the search
-- for an audio device.
pub mod Search
pub mod Scan
pub mod Found
pub mod Address
use tiny_os64v.Base.{
  ℕ, zero, suc, ◌+◌, ◌-◌, ◌*◌, ◌/◌, ◌%◌, ◌^◌, bit_and, bit_or, List, [], ◌∷◌, Option, none, some,
  Bool, true, false, not, ◌&&◌, ◌==◌, if◌then◌else◌, String, u8, u16, u32, ◌<<<◌, ◌>>>◌,
}
use tiny_os64v.Print.Format.{Arg, word}

-- Accesses of 32 bits to the ports, and calls of `print`, in order.
pub data PortEvent : Type 0 where
  outl : (port value : ℕ) → PortEvent
  inl : (port : ℕ) → PortEvent
  say : String → List Arg → PortEvent

-- What has happened so far, the latest first.
pub record Ports : Type 0 where
  pub log : List PortEvent

-- What a read of a port returns, by all that happened before.
pub record Machine : Type 0 where
  pub input : List PortEvent → (port : ℕ) → ℕ

abbrev pub P {ℓ} : Type ℓ → Type ℓ
P A = Ports → A × Ports

infixl 5 ◌>>=◌ ◌>>◌
abbrev pub ◌>>=◌ {ℓ κ} : {A : Type ℓ} {B : Type κ} → P A → (A → P B) → P B
◌>>=◌ m f w = let (a, w') = m w in f a w'

abbrev pub ◌>>◌ {ℓ κ} : {A : Type ℓ} {B : Type κ} → P A → P B → P B
◌>>◌ m k w = let (a, w') = m w in k w'

abbrev pub pure {ℓ} : {A : Type ℓ} → A → P A
pure a w = (a, w)

abbrev pub then_log : PortEvent → Ports → Ports
then_log e w = record { log = e ∷ w.log }

abbrev pub write_port : ℕ → ℕ → P (Unit {0})
write_port port value w = (tt, then_log (outl port (u32 value)) w)

abbrev pub print : String → List Arg → P (Unit {0})
print fmt args w = (tt, then_log (say fmt args) w)

-- The configuration address, of four arguments of 8 bits.
unfoldable pub config_address : (bus slot func offset : ℕ) → ℕ
config_address bus slot func offset =
    bit_or (bit_or (bit_or (bit_or (bus <<< 16) (slot <<< 11)) (func <<< 8)) (bit_and offset 0xFC))
      0x80000000

-- `AudioDeviceResult`; its fields are unset where it is not valid.
pub record AudioDevice : Type 0 where
  pub bus : ℕ
  pub device : ℕ
  pub func : ℕ
  pub int_pin : ℕ
  pub int_line : ℕ
  pub vendor_id : ℕ
  pub device_id : ℕ
  pub address : ℕ

unfoldable pub write_word : (bus slot func offset value : ℕ) → P (Unit {0})
write_word bus slot func offset value = do
  write_port 0xCF8 (config_address bus slot func offset)
  write_port 0xCFC value

module _ (p : Machine) where
  abbrev pub read_port : ℕ → P ℕ
  read_port port w = (u32 (p.input w.log port), then_log (inl port) w)

  unfoldable pub read_word : (bus slot func offset : ℕ) → P ℕ
  read_word bus slot func offset = do
    write_port 0xCF8 (config_address bus slot func offset)
    read_port 0xCFC

  unfoldable pub set_command_reg : (bus device func value : ℕ) → P (Unit {0})
  set_command_reg bus device func value = do
    reg ← read_word bus device func 0x04
    write_word bus device func 0x04 (bit_or (bit_and reg 0xFFFF0000) (u16 value))
    reg' ← read_word bus device func 0x04
    print "PCI command reg readback: %x\n\r" (word reg' ∷ [])

  -- The report on a device that was found: its base addresses are read once more.
  unfoldable pub report_bases : (bus device func : ℕ) → P (Unit {0})
  report_bases bus device func = do
    base_1 ← read_word bus device func 0x14
    print "  base address #1: %x\n\r" (word base_1 ∷ [])
    base_2 ← read_word bus device func 0x18
    print "  base address #2: %x\n\r" (word base_2 ∷ [])
    base_3 ← read_word bus device func 0x1C
    print "  base address #3: %x\n\r" (word base_3 ∷ [])
    base_4 ← read_word bus device func 0x20
    print "  base address #4: %x\n\r" (word base_4 ∷ [])
    base_5 ← read_word bus device func 0x24
    print "  base address #5: %x\n\r" (word base_5 ∷ [])

  unfoldable pub found_device : (bus device func ids : ℕ) → P (Option AudioDevice)
  found_device bus device func ids = do
    print "HD Audio device found on bus %d device %d func %d [%x:%x]\n\r"
        (word bus ∷ word device ∷ word func ∷ word (bit_and ids 0xFFFF) ∷ word (ids >>> 16) ∷ [])
    address ← read_word bus device func 0x10
    print "  base address #0: %x\n\r" (word address ∷ [])
    report_bases bus device func
    reg ← read_word bus device func 0x3C
    print "  int line: %d   - int pin: %d\n\r"
        (word (bit_and (reg >>> 8) 0xFF) ∷ word (bit_and reg 0xFF) ∷ [])
    pure (
        some (record {
          bus = bus;
          device = device;
          func = func;
          int_pin = bit_and (reg >>> 8) 0xFF;
          int_line = bit_and reg 0xFF;
          vendor_id = bit_and ids 0xFFFF;
          device_id = u16 (ids >>> 16);
          address = address;
        }))

  -- The test on the class code and the subclass.
  abbrev pub is_audio : ℕ → Bool
  is_audio reg = (bit_and (reg >>> 24) 0xFF == 0x04) && (bit_and (reg >>> 16) 0xFF == 0x03)

  unfoldable pub probe_class : (bus device func ids reg : ℕ) → P (Option AudioDevice)
  probe_class bus device func ids reg =
      if is_audio reg then found_device bus device func ids else pure none

  unfoldable pub probe_present : (bus device func ids : ℕ) → P (Option AudioDevice)
  probe_present bus device func ids = do
    reg ← read_word bus device func 8
    probe_class bus device func ids reg

  unfoldable pub probe_ids : (bus device func ids : ℕ) → P (Option AudioDevice)
  probe_ids bus device func ids =
      if bit_and ids 0xFFFF == 0xFFFF then pure none else probe_present bus device func ids

  -- One round of the innermost loop.
  unfoldable pub probe : (bus device func : ℕ) → P (Option AudioDevice)
  probe bus device func = do ids ← read_word bus device func 0; probe_ids bus device func ids

-- A round's result, and the rounds behind it unless it is a device.
abbrev pub or_else : Option AudioDevice → P (Option AudioDevice) → P (Option AudioDevice)
or_else (some d) rest w = (some d, w)
or_else none rest w = rest w

module _ (p : Machine) where
  -- The loop over the functions of a device, `left` of them from `func` on.
  unfoldable pub func_loop : (left bus device func : ℕ) → P (Option AudioDevice)
  func_loop zero bus device func = pure none
  func_loop (suc left) bus device func = do
    r ← probe p bus device func
    or_else r (func_loop left bus device (func + 1))

  unfoldable pub device_loop : (left func_start bus device : ℕ) → P (Option AudioDevice)
  device_loop zero func_start bus device = pure none
  device_loop (suc left) func_start bus device = do
    r ← func_loop (8 - func_start) bus device func_start
    or_else r (device_loop left func_start bus (device + 1))

  unfoldable pub bus_loop : (left device_start func_start bus : ℕ) → P (Option AudioDevice)
  bus_loop zero device_start func_start bus = pure none
  bus_loop (suc left) device_start func_start bus = do
    r ← device_loop (32 - device_start) func_start bus device_start
    or_else r (bus_loop left device_start func_start (bus + 1))

  -- `none` is a result that is not valid. The search ends ahead of bus 255.
  unfoldable pub find_audio_device :
      (bus_start device_start func_start : ℕ) → P (Option AudioDevice)
  find_audio_device bus_start device_start func_start =
      bus_loop (255 - bus_start) device_start func_start bus_start
