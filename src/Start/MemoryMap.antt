-- ===== src/Start/MemoryMap.antt =====
-- How `efi_init` of src/main.cpp prints the firmware's memory map. The code stands under `#if 0`.
pub mod Overrun
use tiny_os64v.Base.{
  ℕ, zero, suc, ◌+◌, ◌*◌, ◌^◌, ◌%◌, bit_and, List, [], ◌∷◌, Option, none, some, Bool, true, false,
  if◌then◌else◌, ◌==◌, leb, String, get_elem?, u64,
}
use tiny_os64v.Print.Format.{word, chars, c_string}
use tiny_os64v.Hda.World.{Event, print}
use tiny_os64v.Firmware.Call.{Call}
use tiny_os64v.Start.{call_firmware, W, pure, need, safely, ◌>>=◌, ◌>>◌}
use tiny_os64v.Start.Acpi.{read_number}

-- The answers of the firmware: `loaded_image` is the status and what the image protocol says of the
-- type of memory, `none` if no pointer to it is set; `memory_map` the status, and the sizes of the
-- map and of a descriptor behind the call; `pool` the status and the address behind the call, 0 if
-- none is set. `memory` is a byte of the memory that it filled, `none` for a fault.
pub record MapFirmware : Type 0 where
  pub loaded_image : List Event → ℕ × Option ℕ
  pub memory_map : List Event → (size : ℕ) → ℕ × ℕ × ℕ
  pub pool : List Event → (memory_type size : ℕ) → ℕ × ℕ
  pub memory : ℕ → Option ℕ

-- `EFI_MEMORY_DESCRIPTOR`, less its padding.
pub record MemoryDescriptor : Type 0 where
  pub type : ℕ
  pub physical_start : ℕ
  pub virtual_start : ℕ
  pub number_of_pages : ℕ
  pub attribute : ℕ

abbrev pub memory_types : List String
memory_types =
    "EfiReservedMemoryType" ∷ "EfiLoaderCode" ∷ "EfiLoaderData" ∷ "EfiBootServicesCode"
    ∷ "EfiBootServicesData" ∷ "EfiRuntimeServicesCode" ∷ "EfiRuntimeServicesData"
    ∷ "EfiConventionalMemory" ∷ "EfiUnusableMemory" ∷ "EfiACPIReclaimMemory" ∷ "EfiACPIMemoryNVS"
    ∷ "EfiMemoryMappedIO" ∷ "EfiMemoryMappedIOPortSpace" ∷ "EfiPalCode" ∷ []

-- A status that is reported one way if it is success, and else with its code.
unfoldable pub report_status : (status : ℕ) (good bad : String) → W (Unit {0})
report_status status good bad =
    safely (if status == 0 then print good [] else print bad (word status ∷ []))

unfoldable pub report_image : (status memory_type : ℕ) → W (Unit {0})
report_image status memory_type =
    if status == 0
    then (do
      safely (print "HandleProtocol OK!\n\r" [])
      safely (print "Pool mem type = %X\n\r" (word memory_type ∷ [])))
    else safely (print "Barf code = %X!\n\r" (word status ∷ []))

-- An index behind the names is a fault.
unfoldable pub print_descriptor : MemoryDescriptor → W (Unit {0})
print_descriptor d = do
  name ← need (get_elem? memory_types (bit_and d.type 0xF))
  safely (print "**type           = 0x%X %s\n\r" (word d.type ∷ chars (c_string name) ∷ []))
  safely (print "  physical start = 0x%X\n\r" (word d.physical_start ∷ []))
  safely (print "  virtual  start = 0x%X\n\r" (word d.virtual_start ∷ []))
  safely (print "  pages          = %d\n\r" (word d.number_of_pages ∷ []))
  safely (print "  attributes     = 0x%X\n\r" (word d.attribute ∷ []))

-- Each fourth time from the third on a key is awaited, whatever the calls return.
unfoldable pub pause : (count : ℕ) → W (Unit {0})
pause count =
    if count % 4 == 3
    then (do
      safely (call_firmware Call.wait_key (λ log. tt {0}))
      safely (call_firmware Call.read_key (λ log. tt)))
    else pure tt

module _ (f : MapFirmware) where
  unfoldable pub read_descriptor : (address : ℕ) → W MemoryDescriptor
  read_descriptor address = do
    type ← need (read_number f.memory 4 address)
    physical ← need (read_number f.memory 8 (address + 8))
    virtual ← need (read_number f.memory 8 (address + 16))
    pages ← need (read_number f.memory 8 (address + 24))
    attribute ← need (read_number f.memory 8 (address + 32))
    pure (record {
      type = type;
      physical_start = physical;
      virtual_start = virtual;
      number_of_pages = pages;
      attribute = attribute;
    })

  -- The loop, with its test behind the round: the count, or `none` if the fuel ran out.
  unfoldable pub map_loop : (fuel size last count address : ℕ) → W (Option ℕ)
  map_loop zero size last count address = pure none
  map_loop (suc fuel) size last count address = do
    d ← read_descriptor address
    print_descriptor d
    pause (count + 1)
    if leb (address + size) last
        then map_loop fuel size last (count + 1) (address + size)
        else pure (some (count + 1))

  -- The type of the image's memory is read ahead of the test of the status. The second call for the
  -- map is given the size of the memory, and the loop goes by the size that the first one set.
  unfoldable pub show_memory_map : (fuel : ℕ) → W (Option ℕ)
  show_memory_map fuel = do
    image ← safely (call_firmware Call.handle_protocol f.loaded_image)
    memory_type ← need image.1
    report_image image.0 memory_type
    first ← safely (call_firmware (Call.get_memory_map 0) (λ log. f.memory_map log 0))
    safely (print "Descriptor size = %d bytes\n\r" (word first.2 ∷ []))
    safely (print "Memorymap  size = %d bytes\n\r" (word first.1 ∷ []))
    let size = u64 (first.1 + 2 * first.2)
    map ←
        safely (
          call_firmware (Call.allocate_typed memory_type size) (λ log. f.pool log memory_type size))
    report_status map.0 "Allocate Pool OK!\n\r" "Allocate Pool barf code = %X!\n\r"
    second ← safely (call_firmware (Call.get_memory_map size) (λ log. f.memory_map log size))
    report_status second.0 "getMemoryMap OK!\n\r" "getMemoryMap Barf code = %X!\n\r"
    safely (print "Memory descriptor size = %d\n\r" (word 40 ∷ []))
    safely (print "Reported          size = %d\n\r" (word second.2 ∷ []))
    map_loop fuel second.2 (map.1 + first.1) 0 map.1
