-- ===== src/Start/Driver/Device.antt =====
-- How `efi_init` of src/main.cpp looks for the audio device ahead of the driver's set-up: it takes the
-- last one that repeated searches find, and writes its command register.
pub mod Last
use tiny_os64v.Base.{ℕ, zero, suc, ◌+◌, [], ◌∷◌, Option, none, some, u8}
use tiny_os64v.Print.Format.{word}
use tiny_os64v.Pci.{
  Machine, P, AudioDevice, ◌>>=◌, ◌>>◌, pure, print, find_audio_device, set_command_reg,
}

module _ (p : Machine) where
  -- The next search starts behind a device.
  unfoldable pub find_behind : AudioDevice → P (Option AudioDevice)
  find_behind x = find_audio_device p x.bus x.device (u8 (x.func + 1))

  -- The loop. `device` is `audioDevice`, `none` as long as it is unset, and `info` is
  -- `HDADeviceInfo`. The fuel bounds the searches; `none` means that it ran out.
  unfoldable pub last_device :
      (fuel : ℕ) (device info : Option AudioDevice) → P (Option (Option AudioDevice))
  last_device fuel device none = pure (some device)
  last_device zero device (some x) = pure none
  last_device (suc fuel) device (some x) = do info ← find_behind x; last_device fuel (some x) info

  unfoldable pub search_devices : (fuel : ℕ) → P (Option (Option AudioDevice))
  search_devices fuel = do info ← find_audio_device p 0 0 0; last_device fuel none info

  -- What follows the loop, with a device: bus mastering and memory space are enabled.
  unfoldable pub enable_device : AudioDevice → P (Unit {0})
  enable_device x = do
    set_command_reg p x.bus x.device x.func 0x0406
    print "Using codec address %x\n\r" (word x.address ∷ [])
