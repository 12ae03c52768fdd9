-- ===== src/Start/Acpi.antt =====
-- The structures of src/acpi.h, and how `efi_init` of src/main.cpp lists the tables of the firmware. The
-- code stands under `#if 0`.
pub mod Layout
pub mod Listed
use tiny_os64v.Base.{
  ℕ, zero, suc, ◌+◌, ◌-◌, ◌*◌, ◌/◌, ◌^◌, ◌%◌, List, [], ◌∷◌, ◌++◌, Option, none, some, Bool, true,
  false, if◌then◌else◌, ◌==◌, ◌>>=?◌, u64,
}
use tiny_os64v.Print.Format.{word, wide, c_string}
use tiny_os64v.Helpers.{strncmp}
use tiny_os64v.Hda.World.{print}
use tiny_os64v.Start.{W, pure, need, safely, ◌>>=◌, ◌>>◌}
use tiny_os64v.Start.Guid.{UefiGuid, same_guid}

-- `n` bytes of a number, the lowest first.
abbrev pub bytes_of : (n v : ℕ) → List ℕ
bytes_of zero v = []
bytes_of (suc n) v = v % 256 ∷ bytes_of n (v / 256)

-- `RSDP`, `ISDTHeader` and `RSDT`, and their bytes, with no room between the fields.
pub record Rsdp : Type 0 where
  pub signature : List ℕ
  pub checksum : ℕ
  pub oem_id : List ℕ
  pub revision : ℕ
  pub rsdt_address : ℕ
  pub length : ℕ
  pub xsdt_address : ℕ
  pub extended_checksum : ℕ
  pub reserved : List ℕ

unfoldable pub rsdp_bytes : Rsdp → List ℕ
rsdp_bytes r =
    r.signature
    ++ (r.checksum
        ∷ (r.oem_id
            ++ (r.revision
                ∷ (bytes_of 4 r.rsdt_address
                    ++ (bytes_of 4 r.length
                        ++ (bytes_of 8 r.xsdt_address ++ (r.extended_checksum ∷ r.reserved)))))))

pub record SdtHeader : Type 0 where
  pub signature : List ℕ
  pub length : ℕ
  pub revision : ℕ
  pub checksum : ℕ
  pub oem_id : List ℕ
  pub oem_table_id : List ℕ
  pub oem_revision : ℕ
  pub creator_id : ℕ
  pub creator_revision : ℕ

unfoldable pub header_bytes : SdtHeader → List ℕ
header_bytes h =
    h.signature
    ++ (bytes_of 4 h.length
        ++ (h.revision
            ∷ h.checksum
            ∷ (h.oem_id
                ++ (h.oem_table_id
                    ++ (bytes_of 4 h.oem_revision
                        ++ (bytes_of 4 h.creator_id ++ bytes_of 4 h.creator_revision))))))

pub record Rsdt : Type 0 where
  pub header : SdtHeader
  pub sdt_pointers : List ℕ

unfoldable pub pointer_bytes : List ℕ → List ℕ
pointer_bytes [] = []
pointer_bytes (v ∷ vs) = bytes_of 4 v ++ pointer_bytes vs

unfoldable pub rsdt_bytes : Rsdt → List ℕ
rsdt_bytes t = header_bytes t.header ++ pointer_bytes t.sdt_pointers

-- Where fields lie.
abbrev pub rsdt_address_offset : ℕ
rsdt_address_offset = 16

abbrev pub length_offset : ℕ
length_offset = 4

abbrev pub header_size : ℕ
header_size = 36

-- `EFI_CONFIGURATION_TABLE`.
pub record ConfigurationTable : Type 0 where
  pub vendor_guid : UefiGuid
  pub vendor_table : ℕ

abbrev pub acpi_table_id : UefiGuid
acpi_table_id = record {
  data1 = 0xeb9d2d30;
  data2 = 0x2d88;
  data3 = 0x11d3;
  data4 = 0x9a ∷ 0x16 ∷ 0x00 ∷ 0x90 ∷ 0x27 ∷ 0x3f ∷ 0xc1 ∷ 0x4d ∷ [];
}

abbrev note_table : Bool → (rsdp : ℕ) → ConfigurationTable → W ℕ
note_table same rsdp t =
    if same
    then (do
      safely (print "Found ACPI 2.0 table at address 0x%X\n\r" (word t.vendor_table ∷ []))
      pure t.vendor_table)
    else pure rsdp

-- The loop over the tables. `rsdp` is 0 for a null pointer.
unfoldable pub find_rsdp : List ConfigurationTable → (rsdp : ℕ) → W ℕ
find_rsdp [] rsdp = pure rsdp
find_rsdp (t ∷ ts) rsdp = do
  same ← need (same_guid t.vendor_guid acpi_table_id)
  next ← note_table same rsdp t
  find_rsdp ts next

-- The memory that the firmware filled, a byte at each address; `none` is a fault.
module _ (mem : ℕ → Option ℕ) where
  -- `n` bytes from an address on, and a number of `n` bytes.
  unfoldable pub read_bytes : (n address : ℕ) → Option (List ℕ)
  read_bytes zero address = some []
  read_bytes (suc n) address =
      mem address >>=? λ b. read_bytes n (address + 1) >>=? λ bs. some (b ∷ bs)

  unfoldable pub read_number : (n address : ℕ) → Option ℕ
  read_number zero address = some 0
  read_number (suc n) address =
      mem address >>=? λ b. read_number n (address + 1) >>=? λ v. some (b + 256 * v)

  -- The loop over the characters of a signature, `left` of them.
  unfoldable pub print_signature : (left address : ℕ) → W (Unit {0})
  print_signature zero address = pure tt
  print_signature (suc left) address = do
    c ← need (mem address)
    safely (print "%c" (word (wide c) ∷ []))
    print_signature left (address + 1)

  -- The loop over the pointers, `left` of them, which begin at `pointers`.
  unfoldable pub list_loop : (left pointers : ℕ) → W (Unit {0})
  list_loop zero pointers = pure tt
  list_loop (suc left) pointers = do
    header ← need (read_number 4 pointers)
    safely (print "  ID : " [])
    print_signature 4 header
    safely (print "\n\r" [])
    list_loop left (pointers + 4)

  abbrev check_signature : Bool → W (Unit {0})
  check_signature same = if same then safely (print "RSDP signature found!\n\r" []) else pure tt

  -- The number of pointers is computed in 64 bits.
  abbrev pub entries_of : (length : ℕ) → ℕ
  entries_of length = u64 (2 ^ 64 + length - header_size) / 4

  unfoldable pub list_tables : (rsdp : ℕ) → W (Unit {0})
  list_tables rsdp = do
    signature ← need (read_bytes 8 rsdp)
    same ← need (strncmp signature (c_string "RSD PTR ") 8)
    check_signature same
    rsdt ← need (read_number 4 (rsdp + rsdt_address_offset))
    length ← need (read_number 4 (rsdt + length_offset))
    list_loop (entries_of length) (rsdt + header_size)

  unfoldable pub show_tables : List ConfigurationTable → W (Unit {0})
  show_tables tables = do rsdp ← find_rsdp tables 0; if rsdp == 0 then pure tt else list_tables rsdp
