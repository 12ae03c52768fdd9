-- ===== src/Start/MemoryMap/Overrun.antt =====
-- How far the loop over the memory map goes, and what it prints.
use tiny_os64v.Base.{
  ℕ, zero, suc, ◌+◌, ◌<◌, ◌%◌, bit_and, List, [], ◌∷◌, some, Bool-cases, inl, inr, true, false,
  if◌then◌else◌, ◌==◌, leb, get_elem?, String, ◌≡◌, refl, ap, ◌∙◌, arith,
}
use tiny_os64v.Print.Format.{word, chars, c_string}
use tiny_os64v.Hda.World.{Event, World, print}
use tiny_os64v.Firmware.Call.{Call}
use tiny_os64v.Start.{call_firmware, pure, need, safely, ◌>>=◌, ◌>>◌}
use tiny_os64v.Start.Acpi.{read_number}
use tiny_os64v.Start.MemoryMap.{
  MapFirmware, MemoryDescriptor, memory_types, print_descriptor, pause, read_descriptor, map_loop,
}

-- Memory at an address that can be read as a descriptor, of a type that has a name.
pub record IsDescriptor (f : MapFirmware) (address : ℕ) : Type 0 where
  pub type : ℕ
  pub name : String
  pub physical : ℕ
  pub virtual : ℕ
  pub pages : ℕ
  pub attribute : ℕ
  pub type_at : read_number f.memory 4 address ≡ some type
  pub named : get_elem? memory_types (bit_and type 0xF) ≡ some name
  pub physical_at : read_number f.memory 8 (address + 8) ≡ some physical
  pub virtual_at : read_number f.memory 8 (address + 16) ≡ some virtual
  pub pages_at : read_number f.memory 8 (address + 24) ≡ some pages
  pub attribute_at : read_number f.memory 8 (address + 32) ≡ some attribute

-- Such memory at a descriptor and `n` more behind it.
abbrev pub Descriptors : MapFirmware → (n size address : ℕ) → Type 0
Descriptors f zero size address = IsDescriptor f address
Descriptors f (suc n) size address = IsDescriptor f address × Descriptors f n size (address + size)

-- The bytes of `n` descriptors.
abbrev pub bytes_in : (n size : ℕ) → ℕ
bytes_in zero size = 0
bytes_in (suc n) size = size + bytes_in n size

-- The history behind the lines on a descriptor.
abbrev pub described :
    {f : MapFirmware} {address : ℕ} → IsDescriptor f address → List Event → List Event
described d log =
    Event.say "  attributes     = 0x%X\n\r" (word d.attribute ∷ [])
    ∷ Event.say "  pages          = %d\n\r" (word d.pages ∷ [])
    ∷ Event.say "  virtual  start = 0x%X\n\r" (word d.virtual ∷ [])
    ∷ Event.say "  physical start = 0x%X\n\r" (word d.physical ∷ [])
    ∷ Event.say "**type           = 0x%X %s\n\r" (word d.type ∷ chars (c_string d.name) ∷ [])
    ∷ log

-- The history behind descriptor number `count`: a key is awaited at each fourth one, from the third on.
abbrev pub paused : (count : ℕ) → List Event → List Event
paused count log =
    if count % 4 == 3 then Event.call Call.read_key ∷ Event.call Call.wait_key ∷ log else log

-- The history behind a descriptor and `n` more, with `count` descriptors ahead of them.
abbrev pub printed :
    (f : MapFirmware) (n size address count : ℕ)
    → Descriptors f n size address
    → List Event
    → List Event
printed f zero size address count d log = paused (count + 1) (described d log)
printed f (suc n) size address count (d, ds) log =
    printed f n size (address + size) (count + 1) ds (paused (count + 1) (described d log))

pause_lem :
    (count : ℕ) (w : World) → pause count w ≡ some (tt, record w { log = paused count w.log })
unfolding pause safely pure call_firmware ◌>>◌
pause_lem count w = elim (Bool-cases (count % 4 == 3)) [
  | inl waits ↦ rw waits refl
  | inr goes_on ↦ rw goes_on refl
]

module _ (f : MapFirmware) where
  abbrev descriptor : {address : ℕ} → IsDescriptor f address → MemoryDescriptor
  descriptor d = record {
    type = d.type;
    physical_start = d.physical;
    virtual_start = d.virtual;
    number_of_pages = d.pages;
    attribute = d.attribute;
  }

  read_descriptor-some :
      (address : ℕ) (d : IsDescriptor f address) (w : World)
      → read_descriptor f address w ≡ some (descriptor d, w)
  unfolding read_descriptor pure need ◌>>=◌
  read_descriptor-some address d w =
      rw (d.type_at, d.physical_at, d.virtual_at, d.pages_at, d.attribute_at) refl

  print_descriptor_lem :
      (address : ℕ) (d : IsDescriptor f address) (w : World)
      → print_descriptor (descriptor d) w ≡ some (tt, record w { log = described d w.log })
  unfolding print_descriptor need safely print ◌>>=◌ ◌>>◌
  print_descriptor_lem address d w = rw d.named refl

  -- A round, with what its test chooses.
  map_loop-suc :
      (fuel size last count address : ℕ) (w : World)
      → (d : IsDescriptor f address)
      → map_loop f (suc fuel) size last count address w
        ≡ (if leb (address + size) last
              then map_loop f fuel size last (count + 1) (address + size)
              else pure (some (count + 1)))
            (record w { log = paused (count + 1) (described d w.log) })
  unfolding map_loop ◌>>=◌ ◌>>◌
  map_loop-suc fuel size last count address w d =
      rw
        (
          read_descriptor-some address d w,
          print_descriptor_lem address d w,
          pause_lem (count + 1) (record w { log = described d w.log }),
        )
        refl

  -- The loop over a map of `n` descriptors, from its first one on, makes `n + 1` rounds where memory
  -- can be read: it prints the fields of each descriptor, in order, and then what lies behind the
  -- map as those of one more.
  pub map_loop_overruns :
      (n fuel size count address : ℕ) (w : World)
      → n < fuel
      → 0 < size
      → (ds : Descriptors f n size address)
      → map_loop f fuel size (address + bytes_in n size) count address w
        ≡ some (some (count + n + 1), record w { log = printed f n size address count ds w.log })
  unfolding pure
  map_loop_overruns n zero size count address w enough large d = absurd (omega arith)
  map_loop_overruns zero (suc fuel) size count address w enough large d =
      let behind : leb (address + size) (address + 0) ≡ false = ground (arith, large) in
      map_loop-suc fuel size (address + 0) count address w d
      ∙ rw behind (
          ap (λ n. some (some n, record w { log = paused (count + 1) (described d w.log) }))
            {x = count + 1} {y = count + 0 + 1} (omega arith))
  map_loop_overruns (suc n) (suc fuel) size count address w enough large (d, ds) =
      let last = address + (size + bytes_in n size) in
      let v : World = record { log = paused (count + 1) (described d w.log) } in
      let w' : World = record { log = printed f n size (address + size) (count + 1) ds v.log } in
      let within : leb (address + size) last ≡ true = ground arith in
      map_loop-suc fuel size last count address w d
      ∙ rw within (
          ap (λ l. map_loop f fuel size l (count + 1) (address + size) v) {x = last}
            {y = address + size + bytes_in n size} (omega arith)
          ∙ map_loop_overruns n fuel size (count + 1) (address + size) v (omega arith) large ds
          ∙ ap (λ n. some (some n, w')) {x = count + 1 + n + 1} {y = count + suc n + 1}
              (omega arith))
