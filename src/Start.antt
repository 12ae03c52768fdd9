-- ===== src/Start.antt =====
-- src/main.cpp: what the program does when it starts, and its picture.
pub mod TextMode
pub mod Picture
pub mod Graphics
pub mod Guid
pub mod Init
pub mod Driver
pub mod Acpi
pub mod MemoryMap
use tiny_os64v.Base.{ℕ, List, ◌∷◌, Option, none, some, ◌>>=?◌, u32}
use tiny_os64v.Hda.World.{Event, World, M, record_event}
use tiny_os64v.Firmware.Call.{Call}

-- A call that returns what `answer` reads from the history ahead of it.
unfoldable pub call_firmware {ℓ} : {A : Type ℓ} → Call → (List Event → A) → M A
call_firmware c answer w = (answer w.log, record_event (Event.call c) w)

-- Code that may have a fault of C++, which is `none`.
abbrev pub W {ℓ} : Type ℓ → Type ℓ
W A = World → Option (A × World)

module _ {ℓ} {A : Type ℓ} where
  unfoldable pub pure : A → W A
  pure a w = some (a, w)

  unfoldable pub need : Option A → W A
  need m w = m >>=? λ a. some (a, w)

  -- Code that has no fault.
  unfoldable pub safely : M A → W A
  safely m w = some (m w)

  -- What is read from the history.
  unfoldable pub look : (List Event → A) → W A
  look f w = some (f w.log, w)

module _ {ℓ κ} {A : Type ℓ} {B : Type κ} where
  infixl 5 ◌>>=◌ ◌>>◌
  unfoldable pub ◌>>=◌ : W A → (A → W B) → W B
  ◌>>=◌ m f w = m w >>=? λ r. f r.0 r.1

  unfoldable pub ◌>>◌ : W A → W B → W B
  ◌>>◌ m k w = m w >>=? λ r. k r.1

-- A store of 32 bits.
unfoldable pub store_word : (address value : ℕ) → W (Unit {0})
store_word address value w = some (tt, record_event (Event.store 4 address (u32 value)) w)
