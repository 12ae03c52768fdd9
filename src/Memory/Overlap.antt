-- ===== src/Memory/Overlap.antt =====
-- What `memmove` does where the destination begins one byte behind the source.
use tiny_os64v.Base.{
  ℕ, zero, suc, ◌+◌, ◌≤◌, ◌<◌, List, some, get_elem?, set, length, ltb, true, ◌≡◌, refl, ap, sym,
  ◌∙◌, arith, length-set, get_elem?-set_self, get_elem?-set_ne,
}
use tiny_os64v.Memory.{memmove}
use tiny_os64v.Memory.Move.{present}

record Smeared (n src : ℕ) (mem : List ℕ) : Type 0 where
  result : List ℕ
  returns : memmove n (src + 1) src mem ≡ some result
  first : (i j : ℕ) → i ≤ n → j ≡ src + i → get_elem? result j ≡ get_elem? mem src
  keeps : (j : ℕ) → j ≤ src → get_elem? result j ≡ get_elem? mem j

step-Smeared :
    (n src : ℕ) (mem : List ℕ) (v : ℕ)
    → src + 1 < length mem
    → get_elem? mem src ≡ some v
    → Smeared n (src + 1) (set mem (src + 1) v)
    → Smeared (suc n) src mem
unfolding memmove
step-Smeared n src mem v room read rest = record {
  result = rest.result;
  returns = rw (read, inside) rest.returns;
  first = first;
  keeps = keeps;
}
  where
    inside : ltb (src + 1) (length mem) ≡ true
    inside = ground arith

    keeps : (j : ℕ) → j ≤ src → get_elem? rest.result j ≡ get_elem? mem j
    keeps j le = rest.keeps j (omega arith) ∙ get_elem?-set_ne mem (src + 1) j v (omega arith)

    first : (i j : ℕ) → i ≤ suc n → j ≡ src + i → get_elem? rest.result j ≡ get_elem? mem src
    first zero j le e =
        ap (get_elem? rest.result) {x = j} {y = src} (omega arith) ∙ keeps src (omega arith)
    first (suc i) j le e =
        rest.first i j (omega arith) (omega arith)
        ∙ get_elem?-set_self mem (src + 1) v room
        ∙ sym read

memmove-Smeared : (n src : ℕ) (mem : List ℕ) → src + n < length mem → Smeared n src mem
memmove-Smeared zero src mem h = record {
  result = mem;
  returns = unfold memmove in refl;
  first = λ i j le e. ap (get_elem? mem) {x = j} {y = src} (omega arith);
  keeps = λ j le. refl;
}
memmove-Smeared (suc n) src mem h =
    let (v, read) = present mem src (omega arith) in
    step-Smeared n src mem v (omega arith) read (
      memmove-Smeared n (src + 1) (set mem (src + 1) v)
        (rw (length-set mem (src + 1) v) (omega arith)))

-- Moved one byte up inside an object, `n` bytes all become the first one: byte `i` of the
-- destination is then the byte that the source began with.
pub memmove_smears :
    (n src i : ℕ) (mem : List ℕ)
    → src + n < length mem
    → i < n
    → (mem' : List ℕ) × (memmove n (src + 1) src mem ≡ some mem')
      × (get_elem? mem' (src + 1 + i) ≡ get_elem? mem src)
memmove_smears n src i mem h lt =
    let m = memmove-Smeared n src mem h in
    (m.result, m.returns, m.first (suc i) (src + 1 + i) (omega arith) (omega arith))
