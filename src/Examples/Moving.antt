-- ===== src/Examples/Moving.antt =====
-- The theorems on the memory functions at concrete inputs.
use tiny_os64v.Base.{ℕ, ◌+◌, List, [], ◌∷◌, some, get_elem?, ◌≡◌, arith, inl, inr}
use tiny_os64v.Memory.{memmove}
use tiny_os64v.Memory.Move.{memmove_lem}
use tiny_os64v.Memory.Overlap.{memmove_smears}

abbrev object : List ℕ
object = 5 ∷ 6 ∷ 5 ∷ 6 ∷ 7 ∷ []

memmove_lem_example :
    (mem' : List ℕ) × (memmove 2 0 3 object ≡ some mem')
    × (get_elem? mem' (0 + 1) ≡ get_elem? object (3 + 1))
    × (get_elem? mem' 2 ≡ get_elem? object 2)
memmove_lem_example =
    memmove_lem 2 0 3 1 2 object (omega arith) (omega arith) (inl (omega arith)) (omega arith)
      (inr (omega arith))

memmove_smears_example :
    (mem' : List ℕ) × (memmove 3 (0 + 1) 0 object ≡ some mem')
    × (get_elem? mem' (0 + 1 + 2) ≡ get_elem? object 0)
memmove_smears_example = memmove_smears 3 0 2 object (omega arith) (omega arith)
