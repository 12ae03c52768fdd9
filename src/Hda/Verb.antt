-- ===== src/Hda/Verb.antt =====
-- `readReg` and `writeReg` of src/hdacodec.h; `sendVerb` and `readVerbResponse` of
-- src/hdacodec.cpp, the immediate command interface.
pub mod Word
pub mod Poll
use tiny_os64v.Base.{
  ℕ, zero, suc, ◌+◌, ◌-◌, ◌*◌, ◌^◌, ◌%◌, bit_and, bit_or, List, [], ◌∷◌, Option, none, some, Bool,
  true, false, codes, ◌==◌, if◌then◌else◌, u32, ◌<<<◌,
}
use tiny_os64v.Hda.Regs.{RegDef, get_reg}
use tiny_os64v.Hda.World.{
  Platform, World, M, ◌>>=◌, ◌>>◌, pure, print, read8, read16, read32, write8, write16, write32,
}

-- The `switch` on the width of a register that was found.
unfoldable pub write_found : Option RegDef → ℕ → M Bool
write_found none v = print "ERROR: writeReg cannot find register\n\r" [] >> pure false
write_found (some r) v =
    if r.width == 1
    then (write8 r.offset v >> pure true)
    else if r.width == 2
    then (write16 r.offset v >> pure true)
    else if r.width == 4
    then (write32 r.offset v >> pure true)
    else (print "ERROR: writeReg cannot find register\n\r" [] >> pure false)

unfoldable pub write_reg : List ℕ → ℕ → M Bool
write_reg regname v = write_found (get_reg regname) v

-- The word `(codec << 28) | (node << 20) | (verb << 8) | command` of 32 bits.
unfoldable pub verb_word : (codec node verb command : ℕ) → ℕ
verb_word codec node verb command =
    bit_or (bit_or (bit_or (u32 (codec <<< 28)) (u32 (node <<< 20))) (u32 (verb <<< 8))) command

unfoldable pub send_verb : (codec node verb command : ℕ) → M (Unit {0})
send_verb codec node verb command = do
  write_reg (codes "ics") 0x02
  write_reg (codes "icw") (verb_word codec node verb command)
  write_reg (codes "ics") 0x01
  pure tt

module _ (p : Platform) where
  unfoldable pub read_found : Option RegDef → M ℕ
  read_found none = print "ERROR: readReg cannot find register\n\r" [] >> pure 0
  read_found (some r) =
      if r.width == 1
      then read8 p r.offset
      else if r.width == 2
      then read16 p r.offset
      else if r.width == 4
      then read32 p r.offset
      else (print "ERROR: readReg cannot find register\n\r" [] >> pure 0)

  unfoldable pub read_reg : List ℕ → M ℕ
  read_reg regname = read_found (get_reg regname)

  -- The loop with `k + 1` retries left.
  unfoldable pub poll : ℕ → M (Option ℕ)
  poll zero = do
    status ← read_reg (codes "ics")
    if bit_and status 0x03 == 0x02
        then (do response ← read_reg (codes "irr"); pure (some (u32 response)))
        else pure none
  poll (suc k) = do
    status ← read_reg (codes "ics")
    if bit_and status 0x03 == 0x02
        then (do response ← read_reg (codes "irr"); pure (some (u32 response)))
        else poll k

  unfoldable pub read_verb_response : M (Option ℕ)
  read_verb_response = poll 1023

  -- A verb and its response, as the callers pair them.
  unfoldable pub verb : (node verb command : ℕ) → M (Option ℕ)
  verb node v command = do send_verb 0 node v command; read_verb_response
