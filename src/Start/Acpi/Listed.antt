-- ===== src/Start/Acpi/Listed.antt =====
-- What the list of the firmware's tables prints.
use tiny_os64v.Base.{
  ℕ, zero, suc, ◌+◌, ◌*◌, ◌^◌, ◌<◌, List, [], ◌∷◌, Option, some, codes, length, ◌≡◌, refl, arith,
}
use tiny_os64v.Print.Format.{word, wide}
use tiny_os64v.Helpers.{strncmp}
use tiny_os64v.Hda.World.{Event, World, print}
use tiny_os64v.Start.{pure, need, safely, ◌>>=◌, ◌>>◌}
use tiny_os64v.Start.Acpi.{
  Rsdp, rsdp_bytes, SdtHeader, header_bytes, Rsdt, rsdt_bytes, pointer_bytes, print_signature,
  list_loop, entries_of, list_tables,
}
use tiny_os64v.Start.Acpi.Layout.{
  Stores, Stores-at, IsRsdp, IsHeader, read_word-Stores, Rsdp-fields, SdtHeader-fields, Rsdt-parts,
}

-- The history behind a signature, and behind the lines on tables.
abbrev pub signed : List ℕ → List Event → List Event
signed [] log = log
signed (c ∷ cs) log = signed cs (Event.say "%c" (word (wide c) ∷ []) ∷ log)

abbrev pub listed : List SdtHeader → List Event → List Event
listed [] log = log
listed (h ∷ hs) log =
    listed hs (Event.say "\n\r" [] ∷ signed h.signature (Event.say "  ID : " [] ∷ log))

-- Pointers of 32 bits to the headers of tables.
abbrev pub PointTo : (mem : ℕ → Option ℕ) → List ℕ → List SdtHeader → Type 0
PointTo mem [] [] = Unit
PointTo mem [] (h ∷ hs) = ⊥
PointTo mem (v ∷ vs) [] = ⊥
PointTo mem (v ∷ vs) (h ∷ hs) =
    (v < 2 ^ 32) × IsHeader h × Stores mem v (header_bytes h) × PointTo mem vs hs

module _ (mem : ℕ → Option ℕ) where
  print_signature-Stores :
      (left at : ℕ) (cs : List ℕ) (w : World)
      → length cs ≡ left
      → Stores mem at cs
      → print_signature mem left at w ≡ some (tt, record w { log = signed cs w.log })
  unfolding print_signature pure need safely print ◌>>=◌ ◌>>◌
  print_signature-Stores zero at [] w e h = refl
  print_signature-Stores zero at (c ∷ cs) w e h = absurd (omega (arith, e))
  print_signature-Stores (suc left) at [] w e h = absurd (omega (arith, e))
  print_signature-Stores (suc left) at (c ∷ cs) w e (h, hs) =
      rw h (print_signature-Stores left (at + 1) cs _ (omega (arith, e)) hs)

  list_loop-PointTo :
      (left at : ℕ) (vs : List ℕ) (hs : List SdtHeader) (w : World)
      → length vs ≡ left
      → Stores mem at (pointer_bytes vs)
      → PointTo mem vs hs
      → list_loop mem left at w ≡ some (tt, record w { log = listed hs w.log })
  unfolding list_loop pointer_bytes pure need safely print ◌>>=◌ ◌>>◌
  list_loop-PointTo zero at [] [] w e h p = refl
  list_loop-PointTo zero at [] (x ∷ hs) w e h p = absurd p
  list_loop-PointTo zero at (v ∷ vs) hs w e h p = absurd (omega (arith, e))
  list_loop-PointTo (suc left) at [] hs w e h p = absurd (omega (arith, e))
  list_loop-PointTo (suc left) at (v ∷ vs) [] w e h p = absurd p
  list_loop-PointTo (suc left) at (v ∷ vs) (x ∷ hs) w e (a0, (a1, (a2, (a3, h))))
        (lt, is, stored, p) =
      let header = SdtHeader-fields mem v x is stored in
      let w' = record w { log = Event.say "  ID : " [] ∷ w.log } in
      rw
        (
          read_word-Stores mem at v lt (a0, (a1, (a2, (a3, tt)))),
          print_signature-Stores 4 v x.signature w' is.signature header.0,
        )
        (list_loop-PointTo left (at + 4) vs hs _ (omega (arith, e))
          (Stores-at mem (at + 1 + 1 + 1 + 1) (at + 4) (pointer_bytes vs) (omega arith) h) p)

  -- In memory that holds the structures, with a length in the header of the table of pointers that
  -- counts all of them, the list reads no memory outside them, finds the signature of the first
  -- structure, and prints the signature of each table that a pointer leads to, in order.
  pub list_tables-listed :
      (rsdp : ℕ) (r : Rsdp) (t : Rsdt) (hs : List SdtHeader) (w : World)
      → IsRsdp r
      → r.signature ≡ codes "RSD PTR "
      → Stores mem rsdp (rsdp_bytes r)
      → IsHeader t.header
      → t.header.length ≡ 36 + 4 * length t.sdt_pointers
      → Stores mem r.rsdt_address (rsdt_bytes t)
      → PointTo mem t.sdt_pointers hs
      → list_tables mem rsdp w
        ≡ some (tt, record w { log = listed hs (Event.say "RSDP signature found!\n\r" [] ∷ w.log) })
  unfolding list_tables pure need safely print strncmp ◌>>=◌ ◌>>◌
  list_tables-listed rsdp r t hs w is_r signed_r at_r is_t size at_t pointers =
      let (signature, address) = Rsdp-fields mem rsdp r is_r at_r in
      let (length_read, behind) = Rsdt-parts mem r.rsdt_address t is_t at_t in
      let count : entries_of mem t.header.length ≡ length t.sdt_pointers =
        omega (arith, size, is_t.length) in
      rw (signature, signed_r, address, length_read, count)
        (list_loop-PointTo (length t.sdt_pointers) (r.rsdt_address + 36) t.sdt_pointers hs _ refl
          behind pointers)
