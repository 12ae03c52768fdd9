-- ===== src/Hda/Collect/Lists.antt =====
-- The lists that the pass fills: node numbers of seven bits, and amplifiers within their bounds.
use tiny_os64v.Base.{
  ℕ, zero, suc, ◌+◌, ◌≤◌, bit_and, List, [], ◌∷◌, Option, none, some, ◌==◌, length, ◌≡◌, refl,
  arith, ap, ◌∙◌, All, All-set, length-set, Bool-cases, inl, inr,
}
use tiny_os64v.Bits.{bit_and-le}
use tiny_os64v.Hda.Types.{Amp}
use tiny_os64v.Hda.World.{Platform, World}
use tiny_os64v.Hda.Amps.Bounds.{IsAmp, get_input_amplifier_info-IsAmp}
use tiny_os64v.Hda.Collect.{resize, set_entry, connection_loop, collect_list, input_amps}

abbrev pub IsNode : ℕ → Type 0
IsNode n = n ≤ 127

pub length-resize : {A : Type 0} (n : ℕ) (d : A) (xs : List A) → length (resize n d xs) ≡ n
unfolding resize
length-resize zero d xs = refl
length-resize (suc n) d [] = ap suc (length-resize n d [])
length-resize (suc n) d (x ∷ xs) = ap suc (length-resize n d xs)

All-resize : (n : ℕ) (xs : List ℕ) → All IsNode xs → All IsNode (resize n 0 xs)
unfolding resize
All-resize zero xs h = tt
All-resize (suc n) [] h = (omega arith, All-resize n [] tt)
All-resize (suc n) (x ∷ xs) h = (h.0, All-resize n xs h.1)

-- Nodes of seven bits, `n` of them.
abbrev Nodes : ℕ → List ℕ → Type 0
Nodes n list = All IsNode list × (length list ≡ n)

set_entry-Nodes :
    (p : Platform) (n offset : ℕ) (r : Option ℕ × ℕ) (list : List ℕ)
    → Nodes n list
    → Nodes n (set_entry p offset r list)
set_entry-Nodes p n offset (none, word) list h = h
set_entry-Nodes p n offset (some r, word) list h = (
  All-set IsNode list offset (bit_and word 0x7F) h.0 (bit_and-le word 0x7F),
  length-set list offset (bit_and word 0x7F) ∙ h.1,
)

abbrev pub FewNodes : List ℕ → Type 0
FewNodes list = All IsNode list × (length list ≤ 127)

abbrev pub Amps : ℕ → List Amp → Type 0
Amps n l = All IsAmp l × (length l ≡ n)

module _ (p : Platform) where
  connection_loop-Nodes :
      (id n left offset word : ℕ) (result : Option ℕ) (list : List ℕ)
      → Nodes n list
      → (w : World) → Nodes n (connection_loop p id left offset word result list w).0
  unfolding connection_loop
  connection_loop-Nodes id n zero offset word result list h w = h
  connection_loop-Nodes id n (suc left) offset word result list h w =
      connection_loop-Nodes id n left (offset + 1) _ _ _ (set_entry-Nodes p n offset _ list h) _

  few : (len : ℕ) (l : List ℕ) → len ≤ 127 → Nodes len l → FewNodes l
  few len l small n = (n.0, omega (arith, n.1))

  pub collect_list-FewNodes :
      (id len long_form : ℕ) (list : List ℕ) (result : Option ℕ)
      → len ≤ 127
      → FewNodes list
      → (w : World) → FewNodes (collect_list p id len long_form list result w).0
  unfolding collect_list
  collect_list-FewNodes id len long_form list result small h w =
      elim (Bool-cases (long_form == 0)) [
        | inl short ↦ rw short (
            few len _ small (
              connection_loop-Nodes id len len 0 0 result (resize len 0 list)
                (All-resize len list h.0, length-resize len 0 list) w))
        | inr long ↦ rw long h
      ]

  pub input_amps-Amps : (id left ch : ℕ) (w : World) → Amps left (input_amps p id left ch w).0
  unfolding input_amps
  input_amps-Amps id zero ch w = (tt, refl)
  input_amps-Amps id (suc left) ch w = (
    (get_input_amplifier_info-IsAmp p id ch w, (input_amps-Amps id left (ch + 1) _).0),
    ap suc (input_amps-Amps id left (ch + 1) _).1,
  )
