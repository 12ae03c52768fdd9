-- ===== src/Print/Decimal/Doubling.antt =====
-- The digits that the doubling loop of `toUDec` ends with stand for its argument.
use native.Mathlib.Nat.{pow-suc, one-le-pow}
use tiny_os64v.Base.{
  ℕ, zero, suc, ◌+◌, ◌-◌, ◌*◌, ◌/◌, ◌^◌, ◌≤◌, ◌<◌, bit_and, List, [], ◌∷◌, ◌≡◌, refl, arith, leb,
  ◌==◌, if◌then◌else◌, u32, ◌<<<◌, All, length, ap, ◌∙◌, inl, inr, lt_or_le,
}
use tiny_os64v.Bits.{bit_or_shifted, bit_and_bit}
use tiny_os64v.Print.Decimal.{doubled, shift_digits, dec_rounds, ten_zeros}

-- What digits stand for, the lowest first.
abbrev pub value : List ℕ → ℕ
value [] = 0
value (d ∷ ds) = d + 10 * value ds

abbrev pub IsDigit : ℕ → Type 0
IsDigit d = d < 10

doubled_lem : (d b : ℕ) → d < 10 → b < 2 → doubled d b ≡ 2 * d + b
unfolding doubled
doubled_lem d b hd hb = omega (arith, bit_or_shifted d b 1 (omega arith))

-- Digits that a pass of the inner loop makes of `ds`; what it drops is worth `10 ^ n`.
record IsDoubled (ds : List ℕ) (b : ℕ) (out : List ℕ) : Type 0 where
  digits : All IsDigit out
  same_length : length out ≡ length ds
  dropped : ℕ
  sum : value out + dropped * 10 ^ length ds ≡ 2 * value ds + b

shift_digits-IsDoubled :
    (ds : List ℕ) (b : ℕ) → All IsDigit ds → b < 2 → IsDoubled ds b (shift_digits ds b)
unfolding shift_digits
shift_digits-IsDoubled [] b h hb = record {
  digits = tt;
  same_length = refl;
  dropped = b;
  sum = omega arith;
}
shift_digits-IsDoubled (d ∷ ds) b h hb = elim (lt_or_le (2 * d + b) 10) [
  | inl small ↦
      let rest = shift_digits-IsDoubled ds 0 h.1 (omega arith) in
      rw (exact, keep small, none_over small)
        (record {
          digits = (small, rest.digits);
          same_length = ap suc rest.same_length;
          dropped = rest.dropped;
          sum = omega (arith, rest.sum, ap (λ (t : ℕ). rest.dropped * t) (pow-suc 10 (length ds)));
        })
  | inr big ↦
      let rest = shift_digits-IsDoubled ds 1 h.1 (omega arith) in
      rw (exact, wrap big, one_over big)
        (record {
          digits = (omega arith, rest.digits);
          same_length = ap suc rest.same_length;
          dropped = rest.dropped;
          sum = omega (arith, rest.sum, ap (λ (t : ℕ). rest.dropped * t) (pow-suc 10 (length ds)));
        })
]
  where
    exact : doubled d b ≡ 2 * d + b
    exact = doubled_lem d b h.0 hb

    keep : 2 * d + b < 10 → (if leb 10 (2 * d + b) then 2 * d + b - 10 else 2 * d + b) ≡ 2 * d + b
    keep s = ground arith

    none_over : 2 * d + b < 10 → ◌≡◌ {A = ℕ} (if leb 10 (2 * d + b) then 1 else 0) 0
    none_over s = ground arith

    wrap :
        10 ≤ 2 * d + b → (if leb 10 (2 * d + b) then 2 * d + b - 10 else 2 * d + b) ≡ 2 * d + b - 10
    wrap s = ground arith

    one_over : 10 ≤ 2 * d + b → ◌≡◌ {A = ℕ} (if leb 10 (2 * d + b) then 1 else 0) 1
    one_over s = ground arith

top_bit : (val : ℕ) → val < 2 ^ 32 → (if bit_and val 0x80000000 == 0 then 0 else 1) ≡ val / 2 ^ 31
top_bit val h = ground (arith, bit_and_bit 31 val)

-- Digits and the bits still to come, as one number of 64 bits: a round doubles it.
abbrev whole : List ℕ → ℕ → ℕ
whole ds val = value ds * 2 ^ 32 + val

record IsRounds (left : ℕ) (ds : List ℕ) (val : ℕ) (out : List ℕ) : Type 0 where
  digits : All IsDigit out
  ten : length out ≡ 10
  low : ℕ
  low-lt : low < 2 ^ 32
  scaled : whole out low ≡ whole ds val * 2 ^ left

room : (left w : ℕ) → w * 2 ^ suc left < 2 ^ 64 → 2 * w < 2 ^ 64
room left w fits = omega (arith, le_scaled (2 ^ left) (one-le-pow left 2 (omega arith)), pow_split)
  where
    pow_split : w * 2 ^ suc left ≡ 2 * w * 2 ^ left
    pow_split = omega (arith, ap (λ (t : ℕ). w * t) (pow-suc 2 left))

    le_scaled : (p : ℕ) → 1 ≤ p → 2 * w ≤ 2 * w * p
    le_scaled p h = grind arith

regroup : (left w w' : ℕ) → w' ≡ 2 * w → w * 2 ^ suc left < 2 ^ 64 → w' * 2 ^ left < 2 ^ 64
regroup left w w' e fits = rw e (omega (arith, ap (λ (t : ℕ). w * t) (pow-suc 2 left)))

-- One round: with ten digits and room in 64 bits nothing is dropped.
doubles :
    (ds : List ℕ) (val : ℕ) (out : List ℕ)
    → IsDoubled ds (val / 2 ^ 31) out
    → length ds ≡ 10
    → val < 2 ^ 32
    → 2 * whole ds val < 2 ^ 64
    → whole out (u32 (val <<< 1)) ≡ 2 * whole ds val
doubles ds val out pass n lt fits = omega (arith, rw n at pass.sum)

again :
    (left : ℕ) (ds : List ℕ) (val : ℕ) (out : List ℕ) {end : List ℕ}
    → IsRounds left out (u32 (val <<< 1)) end
    → whole out (u32 (val <<< 1)) ≡ 2 * whole ds val
    → IsRounds (suc left) ds val end
again left ds val out r step = record {
  digits = r.digits;
  ten = r.ten;
  low = r.low;
  low-lt = r.low-lt;
  scaled = omega (
    arith,
    r.scaled,
    ap (λ (t : ℕ). t * 2 ^ left) step,
    ap (λ (t : ℕ). whole ds val * t) (pow-suc 2 left),
  );
}

dec_rounds-IsRounds :
    (left : ℕ) (ds : List ℕ) (val : ℕ)
    → All IsDigit ds
    → length ds ≡ 10
    → val < 2 ^ 32
    → whole ds val * 2 ^ left < 2 ^ 64
    → IsRounds left ds val (dec_rounds left ds val)
unfolding dec_rounds
dec_rounds-IsRounds zero ds val h n lt fits = record {
  digits = h;
  ten = n;
  low = val;
  low-lt = lt;
  scaled = omega arith;
}
dec_rounds-IsRounds (suc left) ds val h n lt fits =
    let b = val / 2 ^ 31 in
    let pass = shift_digits-IsDoubled ds b h (omega arith) in
    let out = shift_digits ds b in
    let step = doubles ds val out pass n lt (room left (whole ds val) fits) in
    rw (top_bit val lt) (
      again left ds val out
        (dec_rounds-IsRounds left out (u32 (val <<< 1)) pass.digits (pass.same_length ∙ n)
          (omega arith) (regroup left (whole ds val) (whole out (u32 (val <<< 1))) step fits))
        step)

-- The ten digits that 32 rounds make of a `uint32_t` stand for it.
pub dec_rounds-value :
    (val : ℕ)
    → val < 2 ^ 32
    → All IsDigit (dec_rounds 32 ten_zeros val)
      × (value (dec_rounds 32 ten_zeros val) ≡ val)
      × (length (dec_rounds 32 ten_zeros val) ≡ 10)
dec_rounds-value val h = (r.digits, omega (arith, r.scaled, r.low-lt), r.ten)
  where
    r : IsRounds 32 ten_zeros val (dec_rounds 32 ten_zeros val)
    r = dec_rounds-IsRounds 32 ten_zeros val (omega arith) refl h (omega arith)
