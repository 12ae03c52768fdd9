-- ===== src/Hda/Regs.antt =====
-- The register table of src/hdacodec.h and the look-up by name.
pub mod Lookup
use tiny_os64v.Base.{
  ℕ, ◌+◌, List, [], ◌∷◌, Option, none, some, Bool, true, false, String, codes, if◌then◌else◌,
}
use tiny_os64v.Print.Format.{c_string}
use tiny_os64v.Helpers.{strncmp_chars}

pub record RegDef : Type 0 where
  pub offset : ℕ
  pub width : ℕ
  pub name : String

abbrev pub reg : ℕ → ℕ → String → RegDef
reg o w n = record { offset = o; width = w; name = n }

unfoldable pub regs : List RegDef
regs =
    reg 0x00 2 "gcap"
    ∷ reg 0x02 1 "vmin"
    ∷ reg 0x03 1 "vmax"
    ∷ reg 0x04 2 "outpay"
    ∷ reg 0x08 4 "gctl"
    ∷ reg 0x0C 2 "wakeen"
    ∷ reg 0x0E 2 "statests"
    ∷ reg 0x10 2 "gsts"
    ∷ reg 0x18 2 "outstrmpay"
    ∷ reg 0x1A 2 "instrmpay"
    ∷ reg 0x20 4 "intctl"
    ∷ reg 0x24 4 "intsts"
    ∷ reg 0x30 4 "wallclock"
    ∷ reg 0x38 4 "ssync"
    ∷ reg 0x40 4 "corblbase"
    ∷ reg 0x44 4 "corbubase"
    ∷ reg 0x48 2 "corbwp"
    ∷ reg 0x4A 2 "corbrp"
    ∷ reg 0x4C 1 "corbctl"
    ∷ reg 0x4D 1 "corbsts"
    ∷ reg 0x4E 1 "corbsize"
    ∷ reg 0x50 4 "rirblbase"
    ∷ reg 0x54 4 "rirbubase"
    ∷ reg 0x58 2 "rirbwp"
    ∷ reg 0x5A 2 "rintcnt"
    ∷ reg 0x5C 1 "rirbctl"
    ∷ reg 0x5D 1 "rirbsts"
    ∷ reg 0x5E 1 "rirbsize"
    ∷ reg 0x70 4 "dplbase"
    ∷ reg 0x74 4 "dpubase"
    ∷ reg 0x80 4 "sdnctl"
    ∷ reg 0x83 1 "sdnsts"
    ∷ reg 0x84 4 "sdnlpib"
    ∷ reg 0x88 4 "sdncbl"
    ∷ reg 0x8C 4 "sdnlvi"
    ∷ reg 0x90 2 "sdnfifos"
    ∷ reg 0x92 2 "sdnfmt"
    ∷ reg 0x98 4 "sdnbdpl"
    ∷ reg 0x9C 2 "sdnbdpu"
    ∷ reg 0x60 4 "icw"
    ∷ reg 0x64 4 "irr"
    ∷ reg 0x68 2 "ics"
    ∷ reg (0x80 + 0x80) 4 "osdnctl"
    ∷ reg (0x83 + 0x80) 1 "osdnsts"
    ∷ reg (0x84 + 0x80) 4 "osdnlpib"
    ∷ reg (0x88 + 0x80) 4 "osdncbl"
    ∷ reg (0x8C + 0x80) 4 "osdnlvi"
    ∷ reg (0x90 + 0x80) 2 "osdnfifos"
    ∷ reg (0x92 + 0x80) 2 "osdnfmt"
    ∷ reg (0x98 + 0x80) 4 "osdnbdpl"
    ∷ reg (0x9C + 0x80) 2 "osdnbdpu"
    ∷ []

-- A view with a zero in it could be compared past the end of a name; that fault, which no caller
-- in the program brings about, counts as no match.
abbrev pub matches : List ℕ → RegDef → Bool
matches regname r = elim (strncmp_chars regname (c_string r.name)) [ none ↦ false | some b ↦ b ]

unfoldable pub find_reg : List RegDef → List ℕ → Option RegDef
find_reg [] regname = none
find_reg (r ∷ rs) regname =
    let rest = find_reg rs regname in if matches regname r then some r else rest

unfoldable pub get_reg : List ℕ → Option RegDef
get_reg regname = find_reg regs regname
