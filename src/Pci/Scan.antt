-- ===== src/Pci/Scan.antt =====
-- The three loops of the search for an audio device.
use tiny_os64v.Base.{ℕ, zero, suc, ◌+◌, ◌-◌, ◌≤◌, ◌<◌, ◌≡◌, arith, lt_or_le, inl, inr}
use tiny_os64v.Pci.{Ports, Machine, func_loop, device_loop, bus_loop, find_audio_device}
use tiny_os64v.Pci.Search.{Configures, Outcome, or_else-Outcome, probe-Outcome}

abbrev Funcs : (left bus device func : ℕ) → ℕ → ℕ → ℕ → Type 0
Funcs left bus device func b d f = (b ≡ bus) × (d ≡ device) × (func ≤ f) × (f < func + left)

abbrev Devices : (left func_start bus device : ℕ) → ℕ → ℕ → ℕ → Type 0
Devices left func_start bus device b d f =
    (b ≡ bus) × (device ≤ d) × (d < device + left) × (func_start ≤ f) × (f < 8)

abbrev Buses : (left device_start func_start bus : ℕ) → ℕ → ℕ → ℕ → Type 0
Buses left device_start func_start bus b d f =
    (bus ≤ b) × (b < bus + left) × (device_start ≤ d) × (d < 32) × (func_start ≤ f) × (f < 8)

module _ (p : Machine) (config : ℕ → ℕ) (c : Configures p config) where
  func_loop-Outcome :
      (left bus device func : ℕ) (w : Ports)
      → Outcome config (Funcs left bus device func) (func_loop p left bus device func w).0
  unfolding func_loop
  func_loop-Outcome zero bus device func w =
      Outcome.missing λ b d f h. absurd (omega (arith, h.2, h.3))
  func_loop-Outcome (suc left) bus device func w =
      or_else-Outcome config _ _ _ (λ b d f h. omega arith) (λ b d f h. omega arith)
        (λ b d f h. elim (lt_or_le func f) [
          | inl over ↦ inr (omega arith)
          | inr at ↦ inl (omega arith)
        ])
        _ _ _ (probe-Outcome p config c bus device func w)
        (func_loop-Outcome left bus device (func + 1) _)

  device_loop-Outcome :
      (left func_start bus device : ℕ) (w : Ports)
      → Outcome config
          (Devices left func_start bus device)
          (device_loop p left func_start bus device w).0
  unfolding device_loop
  device_loop-Outcome zero func_start bus device w = Outcome.missing λ b d f h. absurd (omega arith)
  device_loop-Outcome (suc left) func_start bus device w =
      or_else-Outcome config _ _ _ (λ b d f h. omega arith) (λ b d f h. omega arith)
        (λ b d f h. elim (lt_or_le device d) [
          | inl over ↦ inr (omega arith)
          | inr at ↦ inl (omega arith)
        ])
        _ _ _ (func_loop-Outcome (8 - func_start) bus device func_start w)
        (device_loop-Outcome left func_start bus (device + 1) _)

  bus_loop-Outcome :
      (left device_start func_start bus : ℕ) (w : Ports)
      → Outcome config
          (Buses left device_start func_start bus)
          (bus_loop p left device_start func_start bus w).0
  unfolding bus_loop
  bus_loop-Outcome zero device_start func_start bus w =
      Outcome.missing λ b d f h. absurd (omega arith)
  bus_loop-Outcome (suc left) device_start func_start bus w =
      or_else-Outcome config _ _ _ (λ b d f h. omega arith) (λ b d f h. omega arith)
        (λ b d f h. elim (lt_or_le bus b) [
          | inl over ↦ inr (omega arith)
          | inr at ↦ inl (omega arith)
        ])
        _ _ _ (device_loop-Outcome (32 - device_start) func_start bus device_start w)
        (bus_loop-Outcome left device_start func_start (bus + 1) _)

  pub find_audio_device-Outcome :
      (bus_start device_start func_start : ℕ) (w : Ports)
      → Outcome config
          (Buses (255 - bus_start) device_start func_start bus_start)
          (find_audio_device p bus_start device_start func_start w).0
  unfolding find_audio_device
  find_audio_device-Outcome bus_start device_start func_start w =
      bus_loop-Outcome (255 - bus_start) device_start func_start bus_start w
