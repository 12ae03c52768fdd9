-- ===== src/Start/Acpi/Layout.antt =====
-- Reading the structures of src/acpi.h back from memory that holds their bytes.
use tiny_os64v.Base.{
  ℕ, zero, suc, ◌+◌, ◌*◌, ◌/◌, ◌^◌, ◌%◌, ◌<◌, List, [], ◌∷◌, ◌++◌, Option, some, length,
  length-append, ◌≡◌, refl, sym, ap, subst, arith,
}
use tiny_os64v.Start.Acpi.{
  Rsdp, rsdp_bytes, SdtHeader, header_bytes, Rsdt, rsdt_bytes, pointer_bytes, bytes_of, read_bytes,
  read_number,
}

-- Memory that holds bytes from an address on.
abbrev pub Stores : (mem : ℕ → Option ℕ) (at : ℕ) → List ℕ → Type 0
Stores mem at [] = Unit
Stores mem at (b ∷ bs) = (mem at ≡ some b) × Stores mem (at + 1) bs

-- A number of `n` bytes.
abbrev Fits : (n v : ℕ) → Type 0
Fits zero v = v ≡ 0
Fits (suc n) v = Fits n (v / 256)

-- The lengths of the arrays, and a number of 32 bits.
pub record IsRsdp (r : Rsdp) : Type 0 where
  pub signature : length r.signature ≡ 8
  pub oem_id : length r.oem_id ≡ 6
  pub rsdt_address : r.rsdt_address < 2 ^ 32

pub record IsHeader (h : SdtHeader) : Type 0 where
  pub signature : length h.signature ≡ 4
  pub oem_id : length h.oem_id ≡ 6
  pub oem_table_id : length h.oem_table_id ≡ 8
  pub length : h.length < 2 ^ 32

length-header_bytes : (h : SdtHeader) → IsHeader h → length (header_bytes h) ≡ 36
unfolding header_bytes
length-header_bytes h is =
    let numbers =
      bytes_of 4 h.oem_revision ++ (bytes_of 4 h.creator_id ++ bytes_of 4 h.creator_revision) in
    let ids = h.oem_id ++ (h.oem_table_id ++ numbers) in
    omega (
      arith,
      is.signature,
      is.oem_id,
      is.oem_table_id,
      length-append h.signature (bytes_of 4 h.length ++ (h.revision ∷ h.checksum ∷ ids)),
      length-append h.oem_id (h.oem_table_id ++ numbers),
      length-append h.oem_table_id numbers,
    )

module _ (mem : ℕ → Option ℕ) where
  pub Stores-at : (at at' : ℕ) (bs : List ℕ) → at ≡ at' → Stores mem at bs → Stores mem at' bs
  Stores-at at at' bs e h = subst (λ at. Stores mem at bs) e h

  pub Stores-append :
      (at at' : ℕ) (xs ys : List ℕ)
      → at' ≡ at + length xs
      → Stores mem at (xs ++ ys)
      → Stores mem at xs × Stores mem at' ys
  Stores-append at at' [] ys e h = (tt, Stores-at at at' ys (omega (arith, e)) h)
  Stores-append at at' (x ∷ xs) ys e (h, hs) =
      let r = Stores-append (at + 1) at' xs ys (omega (arith, e)) hs in ((h, r.0), r.1)

  read_bytes-Stores :
      (n at : ℕ) (bs : List ℕ) → length bs ≡ n → Stores mem at bs → read_bytes mem n at ≡ some bs
  unfolding read_bytes
  read_bytes-Stores zero at [] e h = refl
  read_bytes-Stores zero at (b ∷ bs) e h = absurd (omega (arith, e))
  read_bytes-Stores (suc n) at [] e h = absurd (omega (arith, e))
  read_bytes-Stores (suc n) at (b ∷ bs) e (h, hs) =
      rw (h, read_bytes-Stores n (at + 1) bs (omega (arith, e)) hs) refl

  read_number-Fits :
      (n at v : ℕ) → Fits n v → Stores mem at (bytes_of n v) → read_number mem n at ≡ some v
  unfolding read_number
  read_number-Fits zero at v fits h = ap some (sym fits)
  read_number-Fits (suc n) at v fits (h, hs) =
      rw (h, read_number-Fits n (at + 1) (v / 256) fits hs)
        (ap some {x = v % 256 + 256 * (v / 256)} {y = v} (omega arith))

  pub read_word-Stores :
      (at v : ℕ) → v < 2 ^ 32 → Stores mem at (bytes_of 4 v) → read_number mem 4 at ≡ some v
  read_word-Stores at v lt h = read_number-Fits 4 at v (omega arith) h

  -- The fields of the structure that the program reads.
  pub Rsdp-fields :
      (at : ℕ) (r : Rsdp)
      → IsRsdp r
      → Stores mem at (rsdp_bytes r)
      → (read_bytes mem 8 at ≡ some r.signature)
        × (read_number mem 4 (at + 16) ≡ some r.rsdt_address)
  unfolding rsdp_bytes
  Rsdp-fields at r is h =
      let (signature, (_, oem)) =
        Stores-append at (at + 8) r.signature _ (omega (arith, is.signature)) h in
      let (_, (_, rest)) =
        Stores-append (at + 8 + 1) (at + 15) r.oem_id _ (omega (arith, is.oem_id)) oem in
      let (a0, (a1, (a2, (a3, _)))) = rest in
      (
        read_bytes-Stores 8 at r.signature is.signature signature,
        read_word-Stores (at + 16) r.rsdt_address is.rsdt_address (
            Stores-at (at + 15 + 1) (at + 16) (bytes_of 4 r.rsdt_address) (omega arith)
              (a0, (a1, (a2, (a3, tt))))),
      )

  pub SdtHeader-fields :
      (at : ℕ) (h : SdtHeader)
      → IsHeader h
      → Stores mem at (header_bytes h)
      → Stores mem at h.signature × (read_number mem 4 (at + 4) ≡ some h.length)
  unfolding header_bytes
  SdtHeader-fields at h is stored =
      let (signature, rest) =
        Stores-append at (at + 4) h.signature _ (omega (arith, is.signature)) stored in
      let (a0, (a1, (a2, (a3, _)))) = rest in
      (signature, read_word-Stores (at + 4) h.length is.length (a0, (a1, (a2, (a3, tt)))))

  pub Rsdt-parts :
      (at : ℕ) (t : Rsdt)
      → IsHeader t.header
      → Stores mem at (rsdt_bytes t)
      → (read_number mem 4 (at + 4) ≡ some t.header.length)
        × Stores mem (at + 36) (pointer_bytes t.sdt_pointers)
  unfolding rsdt_bytes
  Rsdt-parts at t is stored =
      let (header, behind) =
        Stores-append at (at + 36) (header_bytes t.header) (pointer_bytes t.sdt_pointers)
          (omega (arith, length-header_bytes t.header is)) stored in
      ((SdtHeader-fields at t.header is header).1, behind)
