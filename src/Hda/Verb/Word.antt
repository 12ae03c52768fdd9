-- ===== src/Hda/Verb/Word.antt =====
-- The command word of a verb, and what `sendVerb` writes.
use tiny_os64v.Base.{ℕ, ◌+◌, ◌*◌, ◌/◌, ◌^◌, ◌%◌, ◌<◌, ◌∷◌, ◌≡◌, refl, arith, u32, ◌⊎◌, inl, inr}
use tiny_os64v.Bits.{bit_or_add}
use tiny_os64v.Helpers.{strncmp_chars}
use tiny_os64v.Hda.Regs.{regs, find_reg, get_reg}
use tiny_os64v.Hda.World.{Event, World, write16, write32}
use tiny_os64v.Hda.Verb.{write_found, write_reg, verb_word, send_verb}

in_32 : (x : ℕ) → x < 2 ^ 32 → u32 x ≡ x
in_32 x h = omega arith

-- A verb of twelve bits with a payload of eight, or one of four bits, in the high bits of `verb`,
-- with a payload of sixteen.
abbrev pub IsVerb : ℕ → ℕ → Type 0
IsVerb verb command = (verb < 4096) × ((command < 256) ⊎ ((verb % 256 ≡ 0) × (command < 65536)))

sum_of_fields :
    (codec node verb command : ℕ)
    → codec < 16
    → node < 256
    → IsVerb verb command
    → verb_word codec node verb command ≡ codec * 2 ^ 28 + node * 2 ^ 20 + verb * 2 ^ 8 + command
unfolding verb_word
sum_of_fields codec node verb command hc hn (hv, inl short) = rw (
  in_32 (codec * 2 ^ 28) (omega arith),
  in_32 (node * 2 ^ 20) (omega arith),
  in_32 (verb * 2 ^ 8) (omega arith),
  bit_or_add 28 (codec * 2 ^ 28) (node * 2 ^ 20) (omega arith) (omega arith),
  bit_or_add 20 (codec * 2 ^ 28 + node * 2 ^ 20) (verb * 2 ^ 8) (omega arith) (omega arith),
  bit_or_add 8 (codec * 2 ^ 28 + node * 2 ^ 20 + verb * 2 ^ 8) command (omega arith) short,
)
sum_of_fields codec node verb command hc hn (hv, inr (even, long)) = rw (
  in_32 (codec * 2 ^ 28) (omega arith),
  in_32 (node * 2 ^ 20) (omega arith),
  in_32 (verb * 2 ^ 8) (omega arith),
  bit_or_add 28 (codec * 2 ^ 28) (node * 2 ^ 20) (omega arith) (omega arith),
  bit_or_add 20 (codec * 2 ^ 28 + node * 2 ^ 20) (verb * 2 ^ 8) (omega arith) (omega arith),
  bit_or_add 16 (codec * 2 ^ 28 + node * 2 ^ 20 + verb * 2 ^ 8) command (omega arith) long,
)

-- The word that `sendVerb` makes keeps its arguments apart: codec in bits 31..28, node in bits
-- 27..20, and a verb of twelve bits with a payload of eight, or of four bits with one of sixteen.
pub verb_word_fields :
    (codec node verb command : ℕ)
    → codec < 16
    → node < 256
    → IsVerb verb command
    → let word = verb_word codec node verb command in
      (word < 2 ^ 32)
      × (word / 2 ^ 28 ≡ codec)
      × (word / 2 ^ 20 % 256 ≡ node)
      × (word / 2 ^ 16 % 16 ≡ verb / 256)
      × (word % 2 ^ 16 ≡ verb % 256 * 256 + command)
verb_word_fields codec node verb command hc hn hv =
    rw (sum_of_fields codec node verb command hc hn hv) (fields hv)
  where
    fields :
        IsVerb verb command
        → let word = codec * 2 ^ 28 + node * 2 ^ 20 + verb * 2 ^ 8 + command in
          (word < 2 ^ 32)
          × (word / 2 ^ 28 ≡ codec)
          × (word / 2 ^ 20 % 256 ≡ node)
          × (word / 2 ^ 16 % 16 ≡ verb / 256)
          × (word % 2 ^ 16 ≡ verb % 256 * 256 + command)
    fields (lt, inl short) = omega arith
    fields (lt, inr (even, long)) = omega arith

-- `sendVerb` makes three register writes: it clears the valid bit, writes the word, and triggers.
pub send_verb_lem :
    (codec node verb command : ℕ) (w : World)
    → send_verb codec node verb command w ≡ (
      tt,
      record w {
        log =
            Event.write 2 0x68 1
            ∷ Event.write 4 0x60 (u32 (verb_word codec node verb command))
            ∷ Event.write 2 0x68 2
            ∷ w.log;
      },
    )
unfolding send_verb write_reg write_found get_reg find_reg regs strncmp_chars write16 write32
send_verb_lem codec node verb command w = refl
