-- ===== src/Memory/Compare.antt =====
-- When `memcmp` returns 0.
use tiny_os64v.Base.{
  ℕ, zero, suc, ◌+◌, ◌<◌, ◌≤◌, List, some, true, ◌==◌, get_elem?, length, ◌≡◌, refl, ap, sym, ◌∙◌,
  arith,
}
use tiny_os64v.Memory.{Order, memcmp}
use tiny_os64v.Memory.Move.{present}

-- One round, for the bytes that it reads.
round_same :
    (count s1 s2 : ℕ) (mem : List ℕ) (a : ℕ)
    → get_elem? mem s1 ≡ some a
    → get_elem? mem s2 ≡ some a
    → memcmp (suc count) s1 s2 mem ≡ memcmp count (s1 + 1) (s2 + 1) mem
unfolding memcmp
round_same count s1 s2 mem a ra rb = rw (ra, rb, equal) refl
  where
    equal : (a == a) ≡ true
    equal = ground arith

-- On two areas inside the object that hold the same bytes, `memcmp` returns 0.
memcmp_same :
    (count s1 s2 : ℕ) (mem : List ℕ)
    → s1 + count ≤ length mem
    → ((i : ℕ) → i < count → get_elem? mem (s1 + i) ≡ get_elem? mem (s2 + i))
    → memcmp count s1 s2 mem ≡ some Order.same
memcmp_same zero s1 s2 mem h eq = unfold memcmp in refl
memcmp_same (suc count) s1 s2 mem h eq =
    let (a, ra) = present mem s1 (omega arith) in
    round_same count s1 s2 mem a ra (second a ra)
    ∙ memcmp_same count (s1 + 1) (s2 + 1) mem (omega arith) (λ i lt. shifted i lt)
  where
    second : (a : ℕ) → get_elem? mem s1 ≡ some a → get_elem? mem s2 ≡ some a
    second a ra =
        ap (get_elem? mem) {x = s2} {y = s2 + 0} (omega arith)
        ∙ sym (eq 0 (omega arith))
        ∙ ap (get_elem? mem) {x = s1 + 0} {y = s1} (omega arith)
        ∙ ra

    shifted : (i : ℕ) → i < count → get_elem? mem (s1 + 1 + i) ≡ get_elem? mem (s2 + 1 + i)
    shifted i lt =
        ap (get_elem? mem) {x = s1 + 1 + i} {y = s1 + suc i} (omega arith)
        ∙ eq (suc i) (omega arith)
        ∙ ap (get_elem? mem) {x = s2 + suc i} {y = s2 + 1 + i} (omega arith)
