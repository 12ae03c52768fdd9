-- ===== src/Memory/Move.antt =====
-- What `memmove` copies.
use tiny_os64v.Base.{
  ℕ, zero, suc, ◌+◌, ◌≤◌, ◌<◌, List, [], ◌∷◌, some, get_elem?, set, length, ltb, true, ◌≡◌, ◌≢◌,
  refl, ap, sym, ◌∙◌, arith, length-set, get_elem?-set_self, get_elem?-set_ne, inl, ◌⊎◌,
}
use tiny_os64v.Memory.{memmove}

pub present : (xs : List ℕ) (i : ℕ) → i < length xs → (v : ℕ) × (get_elem? xs i ≡ some v)
present [] i h = elim h [ ]
present (x ∷ xs) zero h = (x, refl)
present (x ∷ xs) (suc i) h = present xs i (omega arith)

-- The areas are such that a copy forwards reads no byte that it has stored: the destination does
-- not begin inside the source behind its first byte.
abbrev pub IsForward : (n dst src : ℕ) → Type 0
IsForward n dst src = (dst ≤ src) ⊎ (src + n ≤ dst)

record Moved (n dst src : ℕ) (mem : List ℕ) : Type 0 where
  result : List ℕ
  returns : memmove n dst src mem ≡ some result
  copies : (i j k : ℕ) → i < n → j ≡ dst + i → k ≡ src + i → get_elem? result j ≡ get_elem? mem k
  keeps : (j : ℕ) → (j < dst) ⊎ (dst + n ≤ j) → get_elem? result j ≡ get_elem? mem j

step-Moved :
    (n dst src : ℕ) (mem : List ℕ) (v : ℕ)
    → dst < length mem
    → IsForward (suc n) dst src
    → get_elem? mem src ≡ some v
    → Moved n (dst + 1) (src + 1) (set mem dst v)
    → Moved (suc n) dst src mem
unfolding memmove
step-Moved n dst src mem v room forward read rest = record {
  result = rest.result;
  returns = rw (read, inside) rest.returns;
  copies = copies;
  keeps = λ j out. rest.keeps j (grind arith) ∙ get_elem?-set_ne mem dst j v (grind arith);
}
  where
    inside : ltb dst (length mem) ≡ true
    inside = ground arith

    copies :
        (i j k : ℕ)
        → i < suc n
        → j ≡ dst + i
        → k ≡ src + i
        → get_elem? rest.result j ≡ get_elem? mem k
    copies zero j k lt ej ek =
        rest.keeps j (inl (omega arith))
        ∙ ap (get_elem? (set mem dst v)) {x = j} {y = dst} (omega arith)
        ∙ get_elem?-set_self mem dst v room
        ∙ sym read
        ∙ ap (get_elem? mem) {x = src} {y = k} (omega arith)
    copies (suc i) j k lt ej ek =
        rest.copies i j k (omega arith) (omega arith) (omega arith)
        ∙ get_elem?-set_ne mem dst k v (apart forward)
      where
        apart : IsForward (suc n) dst src → dst ≢ k
        apart h = grind arith

memmove-Moved :
    (n dst src : ℕ) (mem : List ℕ)
    → src + n ≤ length mem
    → dst + n ≤ length mem
    → IsForward n dst src
    → Moved n dst src mem
memmove-Moved zero dst src mem hs hd h = record {
  result = mem;
  returns = unfold memmove in refl;
  copies = λ i j k lt ej ek. absurd (omega arith);
  keeps = λ j out. refl;
}
memmove-Moved (suc n) dst src mem hs hd h =
    let (v, read) = present mem src (omega arith) in
    step-Moved n dst src mem v (omega arith) h read (
      memmove-Moved n (dst + 1) (src + 1) (set mem dst v) (rw (length-set mem dst v) (omega arith))
        (rw (length-set mem dst v) (omega arith)) (grind arith))

-- Where both areas lie inside the object and the destination does not begin inside the source
-- behind its first byte, `memmove` leaves in byte `i` of the destination what byte `i` of the
-- source was before, and byte `j` as it was if it is outside the destination.
pub memmove_lem :
    (n dst src i j : ℕ) (mem : List ℕ)
    → src + n ≤ length mem
    → dst + n ≤ length mem
    → IsForward n dst src
    → i < n
    → (j < dst) ⊎ (dst + n ≤ j)
    → (mem' : List ℕ) × (memmove n dst src mem ≡ some mem')
      × (get_elem? mem' (dst + i) ≡ get_elem? mem (src + i))
      × (get_elem? mem' j ≡ get_elem? mem j)
memmove_lem n dst src i j mem hs hd h lt out =
    let m = memmove-Moved n dst src mem hs hd h in
    (m.result, m.returns, m.copies i (dst + i) (src + i) lt refl refl, m.keeps j out)
