-- ===== src/Hda/World.antt =====
-- The effects of the program: accesses to the device's registers, stores to memory, calls of the
-- firmware and calls of `print`, in order.
use tiny_os64v.Base.{ℕ, List, ◌∷◌, String, Bool, true, false, if◌then◌else◌, u8, u16, u32, u64}
use tiny_os64v.Print.Format.{Arg}
use tiny_os64v.Firmware.Call.{Call}

-- Register accesses give the width in bytes and the offset from the base address.
pub data Event : Type 0 where
  read : (width offset : ℕ) → Event
  write : (width offset value : ℕ) → Event
  store : (width address value : ℕ) → Event
  allocate : (pages : ℕ) → Event
  say : String → List Arg → Event
  call : Call → Event

-- What the program runs on: the value that a register read returns, and the status and address
-- that `m_allocatePages` returns, as functions of all that happened before, the latest first.
pub record Platform : Type 0 where
  pub register : List Event → (width offset : ℕ) → ℕ
  pub allocate_pages : List Event → (pages : ℕ) → ℕ × ℕ

-- What has happened so far. The state of the `HDACodec` object is passed beside it.
pub record World : Type 0 where
  pub log : List Event

abbrev pub M {ℓ} : Type ℓ → Type ℓ
M A = World → A × World

infixl 5 ◌>>=◌ ◌>>◌
abbrev pub ◌>>=◌ {ℓ κ} : {A : Type ℓ} {B : Type κ} → M A → (A → M B) → M B
◌>>=◌ m f w = let (a, w') = m w in f a w'

abbrev pub ◌>>◌ {ℓ κ} : {A : Type ℓ} {B : Type κ} → M A → M B → M B
◌>>◌ m k w = let (a, w') = m w in k w'

abbrev pub pure {ℓ} : {A : Type ℓ} → A → M A
pure a w = (a, w)

abbrev pub record_event : Event → World → World
record_event e w = record w { log = e ∷ w.log }

unfoldable pub emit : Event → M (Unit {0})
emit e w = (tt, record_event e w)

unfoldable pub print : String → List Arg → M (Unit {0})
print fmt args w = (tt, record_event (Event.say fmt args) w)

-- The accessors of the class, for the registers at `m_base`.
unfoldable pub write8 : ℕ → ℕ → M (Unit {0})
write8 offset v w = (tt, record_event (Event.write 1 offset (u8 v)) w)

unfoldable pub write16 : ℕ → ℕ → M (Unit {0})
write16 offset v w = (tt, record_event (Event.write 2 offset (u16 v)) w)

unfoldable pub write32 : ℕ → ℕ → M (Unit {0})
write32 offset v w = (tt, record_event (Event.write 4 offset (u32 v)) w)

unfoldable pub write64 : ℕ → ℕ → M (Unit {0})
write64 offset v w = (tt, record_event (Event.write 8 offset (u64 v)) w)

module _ (p : Platform) where
  unfoldable pub read8 : ℕ → M ℕ
  read8 offset w = (u8 (p.register w.log 1 offset), record_event (Event.read 1 offset) w)

  unfoldable pub read16 : ℕ → M ℕ
  read16 offset w = (u16 (p.register w.log 2 offset), record_event (Event.read 2 offset) w)

  unfoldable pub read32 : ℕ → M ℕ
  read32 offset w = (u32 (p.register w.log 4 offset), record_event (Event.read 4 offset) w)

  unfoldable pub read64 : ℕ → M ℕ
  read64 offset w = (u64 (p.register w.log 8 offset), record_event (Event.read 8 offset) w)

-- A predicate that every result of a computation has, whatever the platform answers.
abbrev pub Always {ℓ κ} : {A : Type ℓ} → (A → Type κ) → M A → Type κ
Always P m = (w : World) → P (m w).0

pub Always-if {ℓ κ} :
    {A : Type ℓ} (P : A → Type κ) (b : Bool) (m k : M A)
    → Always P m
    → Always P k
    → Always P (if b then m else k)
Always-if P true m k hm hk = hm
Always-if P false m k hm hk = hk
