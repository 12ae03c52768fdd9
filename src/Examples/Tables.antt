-- ===== src/Examples/Tables.antt =====
-- The lists of the firmware's tables and memory at concrete inputs.
use tiny_os64v.Base.{
  ℕ, zero, suc, ◌+◌, ◌*◌, ◌/◌, ◌%◌, ◌<◌, List, [], ◌∷◌, Option, some, codes, length, get_elem?, ◌≡◌,
  refl, ap, ap₂, ◌∙◌, arith,
}
use tiny_os64v.Hda.World.{Event}
use tiny_os64v.Start.Acpi.{
  Rsdp, rsdp_bytes, SdtHeader, header_bytes, Rsdt, rsdt_bytes, pointer_bytes, read_number,
  list_tables,
}
use tiny_os64v.Start.Acpi.Layout.{Stores, Stores-at, IsRsdp, IsHeader}
use tiny_os64v.Start.Acpi.Listed.{listed, list_tables-listed}
use tiny_os64v.Start.MemoryMap.{MapFirmware, map_loop}
use tiny_os64v.Start.MemoryMap.Overrun.{IsDescriptor, Descriptors, printed, map_loop_overruns}
use tiny_os64v.Examples.Driver.{start}

abbrev root : Rsdp
root = record {
  signature = codes "RSD PTR ";
  checksum = 1;
  oem_id = codes "VENDOR";
  revision = 0;
  rsdt_address = 0x200;
  length = 36;
  xsdt_address = 0;
  extended_checksum = 0;
  reserved = 0 ∷ 0 ∷ 0 ∷ [];
}

abbrev header : (signature : List ℕ) (length : ℕ) → SdtHeader
header signature length = record {
  signature = signature;
  length = length;
  revision = 1;
  checksum = 2;
  oem_id = codes "VENDOR";
  oem_table_id = codes "EXAMPLES";
  oem_revision = 1;
  creator_id = 2;
  creator_revision = 3;
}

abbrev pointers : Rsdt
pointers = record { header = header (codes "RSDT") 44; sdt_pointers = 0x300 ∷ 0x300 ∷ [] }

abbrev table : SdtHeader
table = header (codes "FACP") 36

-- Three structures, at addresses 0x100, 0x200 and 0x300.
abbrev segment : ℕ → List ℕ
segment (suc zero) = rsdp_bytes root
segment (suc (suc zero)) = rsdt_bytes pointers
segment (suc (suc (suc zero))) = header_bytes table
segment _ = []

abbrev memory : ℕ → Option ℕ
memory a = get_elem? (segment (a / 256)) (a % 256)

memory-Stores :
    (k i : ℕ) (bs : List ℕ)
    → i + length bs < 257
    → ((j : ℕ) → j < length bs → get_elem? (segment k) (i + j) ≡ get_elem? bs j)
    → Stores memory (256 * k + i) bs
memory-Stores k i [] fits at = tt
memory-Stores k i (b ∷ bs) fits at =
    let segment_at : (256 * k + i) / 256 ≡ k = omega (arith, fits) in
    let offset_at : (256 * k + i) % 256 ≡ i + 0 = omega (arith, fits) in
    (
      ap₂ (λ s j. get_elem? (segment s) j) segment_at offset_at ∙ at 0 (omega arith),
      Stores-at memory (256 * k + (i + 1)) (256 * k + i + 1) bs (omega arith) (
          memory-Stores k (i + 1) bs (omega (arith, fits)) (λ j lt.
            ap (get_elem? (segment k)) {x = i + 1 + j} {y = i + suc j} (omega arith)
            ∙ at (suc j) (omega arith))),
    )

stored :
    (k address : ℕ)
    → 256 * k ≡ address
    → length (segment k) < 257
    → Stores memory address (segment k)
stored k address e fits = Stores-at memory (256 * k + 0) address (segment k) (omega (arith, e)) (
    memory-Stores k 0 (segment k) (omega (arith, fits))
      (λ j lt. ap (get_elem? (segment k)) {x = 0 + j} {y = j} (omega arith)))

root-IsRsdp : IsRsdp root
root-IsRsdp = record { signature = refl; oem_id = refl; rsdt_address = omega arith }

pointers-IsHeader : IsHeader pointers.header
pointers-IsHeader = record {
  signature = refl;
  oem_id = refl;
  oem_table_id = refl;
  length = omega arith;
}

table-IsHeader : IsHeader table
table-IsHeader = record {
  signature = refl;
  oem_id = refl;
  oem_table_id = refl;
  length = omega arith;
}

list_tables-listed_example :
    list_tables memory 0x100 start
    ≡ some (
      tt,
      record { log = listed (table ∷ table ∷ []) (Event.say "RSDP signature found!\n\r" [] ∷ []) },
    )
unfolding rsdp_bytes rsdt_bytes header_bytes pointer_bytes
list_tables-listed_example =
    let at_table = stored 3 0x300 refl (omega arith) in
    list_tables-listed memory 0x100 root pointers (table ∷ table ∷ []) start root-IsRsdp refl
      (stored 1 0x100 refl (omega arith)) pointers-IsHeader refl (stored 2 0x200 refl (omega arith))
      (omega arith, table-IsHeader, at_table, (omega arith, table-IsHeader, at_table, tt))

-- Firmware whose memory is zero everywhere.
abbrev blank : MapFirmware
blank = record {
  loaded_image = λ log. (0, some 2);
  memory_map = λ log size. (5, 80, 40);
  pool = λ log memory_type size. (0, 0x1000);
  memory = λ address. some 0;
}

blank-IsDescriptor : (address : ℕ) → IsDescriptor blank address
unfolding read_number
blank-IsDescriptor address = record {
  type = 0;
  name = "EfiReservedMemoryType";
  physical = 0;
  virtual = 0;
  pages = 0;
  attribute = 0;
  type_at = refl;
  named = refl;
  physical_at = refl;
  virtual_at = refl;
  pages_at = refl;
  attribute_at = refl;
}

abbrev two_and_one_more : Descriptors blank 2 40 0x1000
two_and_one_more =
    (blank-IsDescriptor 0x1000, (blank-IsDescriptor 0x1028, blank-IsDescriptor 0x1050))

map_loop_overruns_example :
    map_loop blank 3 40 0x1050 0 0x1000 start
    ≡ some (some 3, record { log = printed blank 2 40 0x1000 0 two_and_one_more [] })
map_loop_overruns_example =
    map_loop_overruns blank 2 3 40 0 0x1000 start (omega arith) (omega arith) two_and_one_more
