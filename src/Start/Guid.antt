-- ===== src/Start/Guid.antt =====
-- `UEFI_GUID` of src/efi_base.h and its `==` of src/main.cpp.
use tiny_os64v.Base.{
  Decides, ℕ, zero, suc, ◌+◌, List, [], ◌∷◌, Option, some, Bool, true, false, if◌then◌else◌, ◌==◌,
  ◌>>=?◌, get_elem?, length, ◌≡◌, refl, ap, ap₂, sym, ◌∙◌, arith, Bool-cases, inl, inr, ==_iff,
}

pub record UefiGuid : Type 0 where
  pub data1 : ℕ
  pub data2 : ℕ
  pub data3 : ℕ
  pub data4 : List ℕ

-- The loop over the last bytes, `left` of them from `i` on.
unfoldable pub same_bytes : (left i : ℕ) (s t : List ℕ) → Option Bool
same_bytes zero i s t = some true
same_bytes (suc left) i s t = get_elem? s i >>=? λ a. get_elem? t i >>=? λ b.
    let rest = same_bytes left (i + 1) s t in if a == b then rest else some false

unfoldable pub same_guid : UefiGuid → UefiGuid → Option Bool
same_guid a b =
    if a.data1 == b.data1
    then if a.data2 == b.data2
      then if a.data3 == b.data3 then same_bytes 8 0 a.data4 b.data4 else some false
      else some false
    else some false

differ : {a b : ℕ} → a ≡ b → (a == b) ≡ false → ⊥
differ e h = ground (arith, e, h)

same_bytes-shift :
    (left i x y : ℕ) (s t : List ℕ)
    → same_bytes left (suc i) (x ∷ s) (y ∷ t) ≡ same_bytes left i s t
unfolding same_bytes
same_bytes-shift zero i x y s t = refl
same_bytes-shift (suc left) i x y s t = rw (sym (same_bytes-shift left (i + 1) x y s t)) (
    ap
      (λ k. get_elem? s i >>=? λ a.
        get_elem? t i >>=? λ b. if a == b then same_bytes left k (x ∷ s) (y ∷ t) else some false)
      {x = suc i + 1} {y = suc (i + 1)} (omega arith))

heads : List ℕ → ℕ
heads [] = 0
heads (x ∷ s) = x

tails : List ℕ → List ℕ
tails [] = []
tails (x ∷ s) = s

same_bytes-Decides :
    (left : ℕ) (s t : List ℕ)
    → length s ≡ left
    → length t ≡ left
    → Decides (s ≡ t) (same_bytes left 0 s t)
unfolding same_bytes heads tails
same_bytes-Decides zero [] [] hs ht = inl (refl, refl)
same_bytes-Decides zero (x ∷ s) t hs ht = absurd (omega (arith, hs))
same_bytes-Decides zero [] (y ∷ t) hs ht = absurd (omega (arith, ht))
same_bytes-Decides (suc left) [] t hs ht = absurd (omega (arith, hs))
same_bytes-Decides (suc left) (x ∷ s) [] hs ht = absurd (omega (arith, ht))
same_bytes-Decides (suc left) (x ∷ s) (y ∷ t) hs ht =
    let shift = same_bytes-shift left 0 x y s t in
    elim (Bool-cases (x == y)) [
      | inl same ↦ elim (same_bytes-Decides left s t (omega (arith, hs)) (omega (arith, ht))) [
        | inl (r, e) ↦ inl (rw same (shift ∙ r), ap₂ (λ a b. a ∷ b) ((==_iff x y).0 same) e)
        | inr (r, other) ↦ inr (rw same (shift ∙ r), λ e. other (ap tails e))
      ]
      | inr other ↦ inr (rw other refl, λ e. absurd (differ (ap heads e) other))
    ]

both :
    (x y : ℕ) (Q : Type 0) (r : Option Bool)
    → Decides Q r
    → Decides ((x ≡ y) × Q) (if x == y then r else some false)
both x y Q r d = elim (Bool-cases (x == y)) [
  | inl same ↦ rw same (elim d [
    | inl (e, q) ↦ inl (e, ((==_iff x y).0 same, q))
    | inr (e, other) ↦ inr (e, λ h. other h.1)
  ])
  | inr other ↦ rw other (inr (refl, λ h. absurd (differ h.0 other)))
]

-- On identifiers with their eight last bytes, `==` reads no byte outside them, and is true for equal
-- ones and false for others.
pub same_guid-Decides :
    (a b : UefiGuid) → length a.data4 ≡ 8 → length b.data4 ≡ 8 → Decides (a ≡ b) (same_guid a b)
unfolding same_guid
same_guid-Decides a b ha hb =
    elim (both a.data1 b.data1 _ _ (
      both a.data2 b.data2 _ _
        (both a.data3 b.data3 _ _ (same_bytes-Decides 8 a.data4 b.data4 ha hb)))) [
          | inl (e, (d1, (d2, (d3, d4)))) ↦
              inl (e, λ i. record { data1 = d1 i; data2 = d2 i; data3 = d3 i; data4 = d4 i })
          | inr (e, other) ↦ inr (
            e,
            λ h. other (
              ap (λ g. g.data1) h,
              (ap (λ g. g.data2) h, (ap (λ g. g.data3) h, ap (λ g. g.data4) h)),
            ),
          )
        ]
