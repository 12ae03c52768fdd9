-- ===== src/Pci/Search.antt =====
-- What the search for an audio device finds.
use tiny_os64v.Base.{
  ℕ, ◌/◌, ◌%◌, ◌^◌, ◌∙◌, arith, ◌≡◌, refl, ap, Bool, true, false, not, ◌&&◌, ◌==◌, List, ◌∷◌,
  Option, none, some, u32, bit_and, ◌>>>◌, Bool-cases, inl, inr, ◌⊎◌,
}
use tiny_os64v.Bits.{bit_and_mask}
use tiny_os64v.Pci.{
  PortEvent, Ports, Machine, P, AudioDevice, config_address, read_word, found_device, is_audio,
  probe_class, probe_present, probe_ids, probe, or_else,
}

-- The registers at the configuration addresses, as the machine returns them on the data port
-- behind a write to the address port.
pub record Configures (p : Machine) (config : ℕ → ℕ) : Type 0 where
  pub reads :
      (log : List PortEvent) (address : ℕ)
      → p.input (PortEvent.outl 0xCF8 address ∷ log) 0xCFC ≡ config address

abbrev pub register : (ℕ → ℕ) → (bus device func offset : ℕ) → ℕ
register config bus device func offset = u32 (config (u32 (config_address bus device func offset)))

-- A function that is there and of the class of audio devices.
abbrev pub has_audio : (ℕ → ℕ) → (bus device func : ℕ) → Bool
has_audio config bus device func =
    not (bit_and (register config bus device func 0) 0xFFFF == 0xFFFF)
    && (bit_and (register config bus device func 8 >>> 24) 0xFF == 0x04)
    && (bit_and (register config bus device func 8 >>> 16) 0xFF == 0x03)

-- A device that was found at a place, with its identifiers and its first base address.
pub record IsFound (config : ℕ → ℕ) (x : AudioDevice) (b d f : ℕ) : Type 0 where
  pub bus : x.bus ≡ b
  pub device : x.device ≡ d
  pub func : x.func ≡ f
  pub vendor_id : x.vendor_id ≡ register config b d f 0 % 2 ^ 16
  pub device_id : x.device_id ≡ register config b d f 0 / 2 ^ 16
  pub address : x.address ≡ register config b d f 0x10
  pub audio : has_audio config b d f ≡ true

-- What a search over a range of places comes to.
pub data Outcome (config : ℕ → ℕ) (R : ℕ → ℕ → ℕ → Type 0) : Option AudioDevice → Type 0 where
  missing : ((b d f : ℕ) → R b d f → has_audio config b d f ≡ false) → Outcome config R none
  present :
      (x : AudioDevice) (b d f : ℕ) → R b d f → IsFound config x b d f → Outcome config R (some x)

abbrev pub Here : ℕ → ℕ → ℕ → ℕ → ℕ → ℕ → Type 0
Here bus device func b d f = (b ≡ bus) × (d ≡ device) × (f ≡ func)

module _ (config : ℕ → ℕ) (R S T : ℕ → ℕ → ℕ → Type 0) where
  behind :
      ((b d f : ℕ) → R b d f → has_audio config b d f ≡ false)
      → ((b d f : ℕ) → S b d f → T b d f)
      → ((b d f : ℕ) → T b d f → R b d f ⊎ S b d f)
      → (r : Option AudioDevice) → Outcome config S r
      → Outcome config T r
  behind none_here wide split _ (present x b d f s is) = present x b d f (wide b d f s) is
  behind none_here wide split _ (missing none_there) = missing λ b d f t. elim (split b d f t) [
    | inl here ↦ none_here b d f here
    | inr there ↦ none_there b d f there
  ]

  pub or_else-Outcome :
      ((b d f : ℕ) → R b d f → T b d f)
      → ((b d f : ℕ) → S b d f → T b d f)
      → ((b d f : ℕ) → T b d f → R b d f ⊎ S b d f)
      → (r : Option AudioDevice) (rest : P (Option AudioDevice)) (w : Ports) → Outcome config R r
      → Outcome config S (rest w).0
      → Outcome config T (or_else r rest w).0
  or_else-Outcome left right split _ rest w (present x b d f s is) hs =
      present x b d f (left b d f s) is
  or_else-Outcome left right split _ rest w (missing none_here) hs =
      behind none_here right split _ hs

module _ (p : Machine) (config : ℕ → ℕ) (c : Configures p config) where
  read_word_lem :
      (b d f offset : ℕ) (w : Ports) → (read_word p b d f offset w).0 ≡ register config b d f offset
  unfolding read_word
  read_word_lem b d f offset w = ap u32 (c.reads _ _)

  found_device-IsFound :
      (b d f ids : ℕ) (w : Ports)
      → ids ≡ register config b d f 0
      → has_audio config b d f ≡ true
      → Outcome config (Here b d f) (found_device p b d f ids w).0
  unfolding found_device
  found_device-IsFound b d f ids w e is =
      present _ b d f (refl, refl, refl)
        (record {
          bus = refl;
          device = refl;
          func = refl;
          vendor_id = bit_and_mask 16 ids ∙ ap (λ v. v % 2 ^ 16) e;
          device_id = omega (arith, e);
          address = read_word_lem b d f 0x10 _;
          audio = is;
        })

  nothing-Here : (b d f : ℕ) → has_audio config b d f ≡ false → Outcome config (Here b d f) none
  nothing-Here b d f no_audio = missing λ b' d' f' h. rw (h.0, h.1, h.2) no_audio

  probe_class-Outcome :
      (b d f ids reg : ℕ) (w : Ports)
      → ids ≡ register config b d f 0
      → reg ≡ register config b d f 8
      → (bit_and (register config b d f 0) 0xFFFF == 0xFFFF) ≡ false
      → Outcome config (Here b d f) (probe_class p b d f ids reg w).0
  unfolding probe_class
  probe_class-Outcome b d f ids reg w same e there = elim (Bool-cases (is_audio p reg)) [
    | inl audio ↦ rw audio (found_device-IsFound b d f ids w same (rw (there, ← e) audio))
    | inr other ↦ rw other (nothing-Here b d f (rw (there, ← e) other))
  ]

  probe_ids-Outcome :
      (b d f ids : ℕ) (w : Ports)
      → ids ≡ register config b d f 0
      → Outcome config (Here b d f) (probe_ids p b d f ids w).0
  unfolding probe_ids probe_present
  probe_ids-Outcome b d f ids w e = elim (Bool-cases (bit_and ids 0xFFFF == 0xFFFF)) [
    | inl absent ↦ rw absent (nothing-Here b d f (rw (← e, absent) refl))
    | inr there ↦
        rw there (probe_class-Outcome b d f ids _ _ e (read_word_lem b d f 8 w) (rw (← e) there))
  ]

  pub probe-Outcome : (b d f : ℕ) (w : Ports) → Outcome config (Here b d f) (probe p b d f w).0
  unfolding probe
  probe-Outcome b d f w = probe_ids-Outcome b d f _ _ (read_word_lem b d f 0 w)
