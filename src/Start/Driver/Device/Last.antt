-- ===== src/Start/Driver/Device/Last.antt =====
-- Which audio device the repeated searches end with.
use tiny_os64v.Base.{ℕ, zero, suc, ◌+◌, ◌≤◌, Option, none, some, false, ◌≡◌, refl, arith, u8}
use tiny_os64v.Pci.{Ports, Machine, AudioDevice, find_audio_device}
use tiny_os64v.Pci.Search.{Configures, has_audio, IsFound, Outcome}
use tiny_os64v.Pci.Scan.{find_audio_device-Outcome}
use tiny_os64v.Pci.Found.{IsSearched}
use tiny_os64v.Start.Driver.Device.{find_behind, last_device, search_devices}

-- What the searches come to: the last device found, with no audio device of no lower bus, no lower
-- device and a higher function; or none at all on the buses that are searched.
pub data IsLast (config : ℕ → ℕ) : Option AudioDevice → Type 0 where
  nowhere :
      ((b d f : ℕ) → IsSearched 0 0 0 b d f → has_audio config b d f ≡ false) → IsLast config none
  last :
      (x : AudioDevice) (b d f : ℕ)
      → IsSearched 0 0 0 b d f
      → IsFound config x b d f
      → ((b' d' f' : ℕ) → IsSearched b d (suc f) b' d' f' → has_audio config b' d' f' ≡ false)
      → IsLast config (some x)

-- The searches return, with such a device.
pub record Ends (config : ℕ → ℕ) (r : Option (Option AudioDevice)) : Type 0 where
  pub device : Option AudioDevice
  pub returns : r ≡ some device
  pub is_last : IsLast config device

-- An outcome over one range of places is one over any other with the same places.
Outcome-range :
    (config : ℕ → ℕ) (R S : ℕ → ℕ → ℕ → Type 0)
    → ((b d f : ℕ) → R b d f → S b d f)
    → ((b d f : ℕ) → S b d f → R b d f)
    → (r : Option AudioDevice) → Outcome config R r
    → Outcome config S r
Outcome-range config R S to from _ (Outcome.missing nothing) =
    Outcome.missing λ b d f s. nothing b d f (from b d f s)
Outcome-range config R S to from _ (Outcome.present x b d f r is) =
    Outcome.present x b d f (to b d f r) is

module _ (p : Machine) (config : ℕ → ℕ) (c : Configures p config) where
  -- What a search behind place `b`, `d`, `f` comes to.
  abbrev Behind : (b d f : ℕ) → Option AudioDevice → Type 0
  Behind b d f r = Outcome config (IsSearched b d (suc f)) r

  search-Outcome :
      (b d f : ℕ) (w : Ports) → Outcome config (IsSearched b d f) (find_audio_device p b d f w).0
  search-Outcome b d f w =
      Outcome-range config _ _ (λ b' d' f' h. omega arith) (λ b' d' f' h. omega arith) _
        (find_audio_device-Outcome p config c b d f w)

  find_behind-Behind :
      (x : AudioDevice) (b d f : ℕ) (w : Ports)
      → IsFound config x b d f
      → IsSearched 0 0 0 b d f
      → Behind b d f (find_behind p x w).0
  unfolding find_behind
  find_behind-Behind x b d f w is s =
      let next : u8 (x.func + 1) ≡ suc f = omega (arith, is.func, s) in
      rw (is.bus, is.device, next) (search-Outcome b d (suc f) w)

  loop-Ends :
      (fuel : ℕ) (x : AudioDevice) (b d f : ℕ) (info : Option AudioDevice) (w : Ports)
      → IsSearched 0 0 0 b d f
      → IsFound config x b d f
      → 8 ≤ fuel + suc f
      → Behind b d f info
      → Ends config (last_device p fuel (some x) info w).0
  unfolding last_device
  loop-Ends fuel x b d f _ w s is enough (Outcome.missing none_there) = record {
    device = some x;
    returns = refl;
    is_last = IsLast.last x b d f s is none_there;
  }
  loop-Ends zero x b d f _ w s is enough (Outcome.present y b' d' f' s' is') = absurd (omega arith)
  loop-Ends (suc fuel) x b d f _ w s is enough (Outcome.present y b' d' f' s' is') =
      loop-Ends fuel y b' d' f' _ _ (omega arith) is' (omega arith)
        (find_behind-Behind y b' d' f' w is' (omega arith))

  first-Ends :
      (fuel : ℕ) (info : Option AudioDevice) (w : Ports)
      → 7 ≤ fuel
      → Outcome config (IsSearched 0 0 0) info
      → Ends config (last_device p (suc fuel) none info w).0
  unfolding last_device
  first-Ends fuel _ w enough (Outcome.missing none_there) = record {
    device = none;
    returns = refl;
    is_last = IsLast.nowhere none_there;
  }
  first-Ends fuel _ w enough (Outcome.present x b d f s is) =
      loop-Ends fuel x b d f _ _ s is (omega arith) (find_behind-Behind x b d f w is s)

  -- On a machine whose data port returns the configuration register that the address port names,
  -- eight rounds are enough for the loop, however many audio devices there are. It ends with no
  -- device only if there is none on the buses that are searched, and else with an audio device
  -- behind which, on no lower bus and with no lower device number, there is none of a higher
  -- function.
  pub search_devices-Ends :
      (fuel : ℕ) (w : Ports) → 8 ≤ fuel → Ends config (search_devices p fuel w).0
  unfolding search_devices
  search_devices-Ends zero w enough = absurd (omega arith)
  search_devices-Ends (suc fuel) w enough =
      first-Ends fuel _ _ (omega arith) (search-Outcome 0 0 0 w)
