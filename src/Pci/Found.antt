-- ===== src/Pci/Found.antt =====
-- Which audio device the search finds, and which it passes over.
use tiny_os64v.Base.{ℕ, ◌≤◌, ◌<◌, ◌≡◌, refl, arith, true, false, Option, none, some}
use tiny_os64v.Pci.{Ports, Machine, AudioDevice, find_audio_device}
use tiny_os64v.Pci.Search.{Configures, has_audio, IsFound, Outcome}
use tiny_os64v.Pci.Scan.{find_audio_device-Outcome}

-- A place that the search of the given start looks at.
abbrev pub IsSearched : (bus_start device_start func_start b d f : ℕ) → Type 0
IsSearched bus_start device_start func_start b d f =
    (bus_start ≤ b) × (b < 255) × (device_start ≤ d) × (d < 32) × (func_start ≤ f) × (f < 8)

module _ (config : ℕ → ℕ) (R : ℕ → ℕ → ℕ → Type 0) where
  IsFound-some :
      (b d f : ℕ) (r : Option AudioDevice)
      → Outcome config R r
      → R b d f
      → has_audio config b d f ≡ true
      → (x : AudioDevice) × (r ≡ some x)
        × (b' : ℕ) × (d' : ℕ) × (f' : ℕ) × R b' d' f'
        × IsFound config x b' d' f'
  IsFound-some b d f _ (Outcome.missing nowhere) s audio = cc (audio, nowhere b d f s)
  IsFound-some b d f _ (Outcome.present y b' d' f' s' is) s audio = (y, refl, b', d', f', s', is)

  found_none :
      (r : Option AudioDevice)
      → Outcome config R r
      → ((b d f : ℕ) → R b d f → has_audio config b d f ≡ false)
      → r ≡ none
  found_none _ (Outcome.missing nowhere) h = refl
  found_none _ (Outcome.present y b d f s is) h = cc (is.audio, h b d f s)

module _ (p : Machine) (config : ℕ → ℕ) (bus_start device_start func_start : ℕ) (w : Ports) where
  -- On a machine whose data port returns the configuration register that the address port names, an
  -- audio device at a place that the search looks at makes it return one: an audio device at a place
  -- that it looks at, with the identifiers and the base address that are configured there.
  pub find_audio_device-some :
      (b d f : ℕ)
      → Configures p config
      → IsSearched bus_start device_start func_start b d f
      → has_audio config b d f ≡ true
      → (x : AudioDevice) × ((find_audio_device p bus_start device_start func_start w).0 ≡ some x)
        × (b' : ℕ) × (d' : ℕ) × (f' : ℕ) × IsSearched bus_start device_start func_start b' d' f'
        × IsFound config x b' d' f'
  find_audio_device-some b d f c s audio =
      let (x, returned, b', d', f', s', is) =
        IsFound-some config _ b d f _
          (find_audio_device-Outcome p config c bus_start device_start func_start w) (omega arith)
          audio in
      (x, returned, b', d', f', omega arith, is)

  -- On a machine whose data port returns the configuration register that the address port names, the
  -- search passes over every audio device of a lower device number or function than it starts with,
  -- on all buses: with no other at a place ahead of bus 255, it finds none.
  pub find_audio_device_passes_over :
      Configures p config
      → ((b d f : ℕ)
          → b < 255
          → device_start ≤ d
          → d < 32
          → func_start ≤ f
          → f < 8
          → has_audio config b d f ≡ false)
      → (find_audio_device p bus_start device_start func_start w).0 ≡ none
  find_audio_device_passes_over c h =
      found_none config _ _
        (find_audio_device-Outcome p config c bus_start device_start func_start w)
        (λ b d f s. h b d f (omega arith) (omega arith) (omega arith) (omega arith) (omega arith))
