-- ===== src/Helpers/Views.antt =====
-- When the comparisons of views hold.
use tiny_os64v.Base.{
  ℕ, List, [], ◌∷◌, length, ◌==◌, ==_iff, ◌≡◌, refl, ap, ap₂, arith, Bool-cases, inl, inr, Decides,
}
use tiny_os64v.Helpers.{strncmp_loop, strncmp_views}

head_of : List ℕ → ℕ
head_of [] = 0
head_of (c ∷ s) = c

tail_of : List ℕ → List ℕ
tail_of [] = []
tail_of (c ∷ s) = s

loop-Decides : (s t : List ℕ) → length s ≡ length t → Decides (s ≡ t) (strncmp_loop s t)
unfolding strncmp_loop head_of tail_of
loop-Decides [] [] e = inl (refl, refl)
loop-Decides [] (d ∷ t) e = absurd (omega arith)
loop-Decides (c ∷ s) [] e = absurd (omega arith)
loop-Decides (c ∷ s) (d ∷ t) e = elim (Bool-cases (c == d)) [
  | inl same ↦ rw same (elim (loop-Decides s t (omega (arith, e))) [
    | inl (r, rest) ↦ inl (r, ap₂ (λ c s. c ∷ s) ((==_iff c d).0 same) rest)
    | inr (r, other) ↦ inr (r, λ h. other (ap tail_of h))
  ])
  | inr other ↦ rw other (inr (refl, λ h. ground (arith, other, ap head_of h)))
]

-- `strncmp` of two views reads nothing outside them, and is true for views of the same text and false
-- for others.
pub strncmp_views-Decides : (s t : List ℕ) → Decides (s ≡ t) (strncmp_views s t)
unfolding strncmp_views
strncmp_views-Decides s t = elim (Bool-cases (length s == length t)) [
  | inl same ↦ rw same (loop-Decides s t ((==_iff _ _).0 same))
  | inr other ↦ rw other (inr (refl, λ e. ground (arith, other, ap length e)))
]
