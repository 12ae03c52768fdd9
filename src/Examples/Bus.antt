-- ===== src/Examples/Bus.antt =====
-- The theorems on the PCI search at concrete inputs.
use tiny_os64v.Base.{
  ℕ, ◌/◌, ◌%◌, ◌^◌, ◌<◌, ◌≤◌, ◌==◌, if◌then◌else◌, false, List, [], ◌∷◌, none, some, ◌≡◌, refl,
  arith, u32,
}
use tiny_os64v.Pci.{PortEvent, Ports, Machine, AudioDevice, find_audio_device, config_address}
use tiny_os64v.Pci.Address.{IsPlace, config_address_fields}
use tiny_os64v.Start.Driver.Device.{search_devices}
use tiny_os64v.Start.Driver.Device.Last.{Ends, search_devices-Ends}
use tiny_os64v.Pci.Search.{Configures, has_audio, IsFound}
use tiny_os64v.Pci.Found.{IsSearched, find_audio_device-some, find_audio_device_passes_over}

-- A machine of one configuration register for all addresses.
abbrev answer : ℕ → List PortEvent → ℕ
answer v (PortEvent.outl port a ∷ log) = v
answer v _ = 0

abbrev machine : ℕ → Machine
machine v = record { input = λ log port. answer v log }

machine-Configures : (v : ℕ) → Configures (machine v) (λ a. v)
machine-Configures v = record { reads = λ log address. refl }

abbrev at_start : Ports
at_start = record { log = [] }

-- Each place holds an audio device.
abbrev audio_class : ℕ
audio_class = 0x04031234

find_audio_device-some_example :
    (x : AudioDevice) × ((find_audio_device (machine audio_class) 0 2 1 at_start).0 ≡ some x)
    × (b : ℕ) × (d : ℕ) × (f : ℕ) × IsSearched 0 2 1 b d f
    × IsFound (λ a. audio_class) x b d f
find_audio_device-some_example =
    find_audio_device-some (machine audio_class) (λ a. audio_class) 0 2 1 at_start 3 7 4
      (machine-Configures audio_class) (omega arith) refl

-- Each function of device 0 is an audio device, on every bus, and there is no other device.
abbrev low_only : ℕ → ℕ
low_only address = if address / 2 ^ 11 % 32 == 0 then audio_class else 0xFFFFFFFF

abbrev low_answer : List PortEvent → ℕ → ℕ
low_answer (PortEvent.outl port a ∷ log) p = low_only a
low_answer _ p = 0

abbrev low_machine : Machine
low_machine = record { input = low_answer }

higher_absent : (b d f : ℕ) → b < 255 → 2 ≤ d → d < 32 → f < 8 → has_audio low_only b d f ≡ false
higher_absent b d f hb hd lt hf =
    let fields = config_address_fields b d f 0 (record {
      bus_fits = omega arith;
      slot_fits = lt;
      func_fits = hf;
      offset_fits = omega arith;
    }) in
    let device : u32 (config_address b d f 0) / 2 ^ 11 % 32 ≡ d =
      omega (arith, fields.0, fields.2) in
    let other : (u32 (config_address b d f 0) / 2 ^ 11 % 32 == 0) ≡ false =
      ground (arith, device, hd) in
    rw other refl

find_audio_device_passes_over_example : (find_audio_device low_machine 0 2 1 at_start).0 ≡ none
find_audio_device_passes_over_example =
    find_audio_device_passes_over low_machine low_only 0 2 1 at_start
      (record { reads = λ log address. refl })
      (λ b d f hb hd lt hf lt'. higher_absent b d f hb hd lt lt')

search_devices-Ends_example :
    Ends (λ a. audio_class) (search_devices (machine audio_class) 8 at_start).0
search_devices-Ends_example =
    search_devices-Ends (machine audio_class) (λ a. audio_class) (machine-Configures audio_class) 8
      at_start (omega arith)

far_end-IsPlace : IsPlace 3 31 7 0x3E
far_end-IsPlace = record {
  bus_fits = omega arith;
  slot_fits = omega arith;
  func_fits = omega arith;
  offset_fits = omega arith;
}

config_address_fields_example :
    let address = config_address 3 31 7 0x3E in
    (address / 2 ^ 24 ≡ 0x80)
    × (address / 2 ^ 16 % 256 ≡ 3)
    × (address / 2 ^ 11 % 32 ≡ 31)
    × (address / 2 ^ 8 % 8 ≡ 7)
    × (address % 256 ≡ 0x3C)
config_address_fields_example = config_address_fields 3 31 7 0x3E far_end-IsPlace
