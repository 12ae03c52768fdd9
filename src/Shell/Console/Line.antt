-- ===== src/Shell/Console/Line.antt =====
-- The lines that the console's buffer holds.
use tiny_os64v.Base.{
  ℕ, zero, suc, ◌+◌, ◌-◌, ◌<◌, List, [], ◌∷◌, ◌++◌, some, true, ltb, ◌==◌, length, set, take,
  length-set, length-take, take-set_end, take-set_self, get_elem?-set_self, Bool-cases, inl, inr,
  ◌≡◌, refl, ap, ◌∙◌, arith,
}
use tiny_os64v.Memory.{store_byte}
use tiny_os64v.Shell.View.{View, view, text}
use tiny_os64v.Shell.View.Words.{IsTerminated}
use tiny_os64v.Shell.Console.{
  Console, backspace, capacity, is_printable, append_key, remove_key, edit_line,
}
use tiny_os64v.Shell.Console.Edit.{all_but_last, edit}

-- The console's buffer, up to the index, holds the line, and has room for its zero.
pub record Refines (c : Console) (line : List ℕ) : Type 0 where
  pub size : length c.buffer ≡ capacity
  pub fits : c.index < capacity
  pub holds : take c.index c.buffer ≡ line

take-all_but_last : (n : ℕ) (b : List ℕ) → n < length b → take n b ≡ all_but_last (take (suc n) b)
take-all_but_last zero [] h = refl
take-all_but_last zero (x ∷ b) h = refl
take-all_but_last (suc n) [] h = refl
take-all_but_last (suc n) (x ∷ []) h = absurd (omega arith)
take-all_but_last (suc n) (x ∷ y ∷ b) h =
    ap (λ t. x ∷ t) (take-all_but_last n (y ∷ b) (omega arith))

pub store_byte-some :
    (mem : List ℕ) (i v : ℕ) → i < length mem → store_byte mem i v ≡ some (set mem i v)
store_byte-some mem i v h = ground (arith, h)

length-line : (c : Console) (line : List ℕ) → Refines c line → length line ≡ c.index
length-line c line r =
    omega (arith, ap length r.holds, length-take c.index c.buffer, r.fits, r.size)

abbrev pub Edited : Console → ℕ → List ℕ → Type 0
Edited c key line = (c' : Console) × (edit_line c key ≡ some c') × Refines c' line

appended :
    (c : Console) (key : ℕ) (line : List ℕ)
    → Refines c line
    → c.index < 255
    → (c' : Console) × (append_key c key ≡ some c') × Refines c' (line ++ key ∷ [])
unfolding append_key
appended c key line r lt =
    let inside : c.index < length c.buffer = omega (arith, r.size) in
    (
      record { buffer = set c.buffer c.index key; index = c.index + 1 },
      rw (store_byte-some c.buffer c.index key inside) refl,
      record {
        size = length-set c.buffer c.index key ∙ r.size;
        fits = omega (arith, lt);
        holds =
            ap (λ k. take k (set c.buffer c.index key)) {x = c.index + 1} {y = suc c.index}
              (omega arith)
            ∙ take-set_end c.buffer c.index key inside
            ∙ ap (λ t. t ++ key ∷ []) r.holds;
      },
    )

removed_at :
    (n : ℕ) (b line : List ℕ)
    → Refines (record { buffer = b; index = n }) line
    → Refines (remove_key (record { buffer = b; index = n })) (all_but_last line)
removed_at zero b line r = record { size = r.size; fits = r.fits; holds = ap all_but_last r.holds }
removed_at (suc n) b line r = record {
  size = r.size;
  fits = omega (arith, r.fits);
  holds = take-all_but_last n b (omega (arith, r.size, r.fits)) ∙ ap all_but_last r.holds;
}

ltb_lt : (a b : ℕ) → ltb a b ≡ true → a < b
ltb_lt a b h = ground (arith, h)

-- Every key other than Enter changes the line as the editor does, without a fault.
pub edit_line-Refines :
    (c : Console) (key : ℕ) (line : List ℕ) → Refines c line → Edited c key (edit line key)
unfolding edit_line
edit_line-Refines c key line r =
    rw (length-line c line r) (elim (Bool-cases (ltb c.index (capacity - 1))) [
      | inl room ↦ rw room (elim (Bool-cases (is_printable key)) [
        | inl printable ↦ rw printable (appended c key line r (ltb_lt c.index 255 room))
        | inr other ↦ rw other (elim (Bool-cases (key == backspace)) [
          | inl back ↦ rw back (remove_key c, refl, removed_at c.index c.buffer line r)
          | inr ignored ↦ rw ignored (c, refl, r)
        ])
      ])
      | inr full ↦ rw full (c, refl, r)
    ])

-- The view of the line that Enter executes.
abbrev pub entered_line : Console → View
entered_line c = view (set c.buffer c.index 0) c.index

pub entered_line-IsTerminated :
    (c : Console) (line : List ℕ) → Refines c line → IsTerminated (entered_line c)
entered_line-IsTerminated c line r = record {
  end = get_elem?-set_self c.buffer c.index 0 (omega (arith, r.size, r.fits));
}

pub entered_line-text :
    (c : Console) (line : List ℕ) → Refines c line → text (entered_line c) ≡ line
entered_line-text c line r = take-set_self c.buffer c.index 0 ∙ r.holds

abbrev pub emptied : Console → Console
emptied c = record { buffer = set c.buffer c.index 0; index = 0 }

pub emptied-Refines : (c : Console) (line : List ℕ) → Refines c line → Refines (emptied c) []
emptied-Refines c line r = record {
  size = length-set c.buffer c.index 0 ∙ r.size;
  fits = omega arith;
  holds = refl;
}
