-- ===== src/Hda/Regs/Lookup.antt =====
-- What the look-up of a register by name finds.
use tiny_os64v.Base.{some, codes, ◌≡◌, arith, All}
use tiny_os64v.Helpers.{strncmp_chars}
use tiny_os64v.Hda.Regs.{regs, find_reg, get_reg}

-- Each register of the table is found by its own name, though names are compared as prefixes.
get_reg_own_name : All (λ r. get_reg (codes r.name) ≡ some r) regs
unfolding get_reg find_reg regs strncmp_chars
get_reg_own_name = ground arith
