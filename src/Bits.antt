-- ===== src/Bits.antt =====
-- `|` of disjoint fields and `&` with a mask, at every width. The native operations stand for
-- `bitwise`, a recursion on binary digits with fuel; the fuel is dropped first.
use Prim.Native.Nat.{digits, bitwise, bit_and-bitwise, bit_or-bitwise}
use native.Mathlib.Nat.{le_refl, pow-suc, one-le-pow, div-add-mod}
use tiny_os64v.Base.{
  ℕ, zero, suc, ◌+◌, ◌-◌, ◌*◌, ◌/◌, ◌%◌, ◌^◌, ◌≤◌, ◌<◌, min, max, bit_and, bit_or, ◌≡◌, refl, ap,
  ◌∙◌, arith, ◌<<<◌,
}

module _ (z : ℕ → ℕ) (f : ℕ → ℕ → ℕ) where
  enough : (n m a b : ℕ) → a ≤ n → a ≤ m → digits z f n a b ≡ digits z f m a b
  enough zero zero a b p q = refl
  enough zero (suc m) (suc a) b p q = absurd (omega arith)
  enough zero (suc m) zero b p q = refl
  enough (suc n) zero (suc a) b p q = absurd (omega arith)
  enough (suc n) zero zero b p q = refl
  enough (suc n) (suc m) zero b p q = refl
  enough (suc n) (suc m) (suc a) b p q =
      rw (enough n m (suc a / 2) (b / 2) (omega arith) (omega arith))

  last_digit :
      (a b : ℕ)
      → bitwise z f (suc a) b ≡ bitwise z f (suc a / 2) (b / 2) * 2 + f (suc a % 2) (b % 2)
  last_digit a b = omega (arith, enough a (suc a / 2) (suc a / 2) (b / 2) (omega arith) (le_refl _))

or_last : (a b : ℕ) → bit_or a b ≡ bit_or (a / 2) (b / 2) * 2 + max (a % 2) (b % 2)
or_last zero b = simp bit_or-bitwise (omega arith)
or_last (suc a) b = simp bit_or-bitwise (last_digit (λ y. y) max a b)

and_last : (a b : ℕ) → bit_and a b ≡ bit_and (a / 2) (b / 2) * 2 + min (a % 2) (b % 2)
and_last zero b = simp bit_and-bitwise (omega arith)
and_last (suc a) b = simp bit_and-bitwise (last_digit (λ y. 0) min a b)

-- The fuel `n` bounds the number that is halved.
or_zero_below : (n a : ℕ) → a ≤ n → bit_or a 0 ≡ a
or_zero_below n zero h = refl
or_zero_below zero (suc a) h = absurd (omega arith)
or_zero_below (suc n) (suc a) h =
    omega (arith, or_last (suc a) 0, or_zero_below n (suc a / 2) (omega arith))

pub bit_or-zero : (a : ℕ) → bit_or a 0 ≡ a
bit_or-zero a = or_zero_below a a (le_refl a)

and_le_below : (n a b : ℕ) → a ≤ n → bit_and a b ≤ b
and_le_below n zero b h = omega (arith, and_zero)
  where
    and_zero : bit_and 0 b ≡ 0
    and_zero = bit_and-bitwise 0 b
and_le_below zero (suc a) b h = absurd (omega arith)
and_le_below (suc n) (suc a) b h =
    omega (arith, and_last (suc a) b, and_le_below n (suc a / 2) (b / 2) (omega arith))

-- A masked value is at most the mask.
pub bit_and-le : (a b : ℕ) → bit_and a b ≤ b
bit_and-le a b = and_le_below a a b (le_refl a)

-- What one more bit below it does to a field.
scale : (k q : ℕ) → 2 * (q * 2 ^ k) ≡ q * 2 ^ suc k
scale k q =
    omega (arith, ap (λ p. q * p) {x = 2 ^ suc k} {y = 2 ^ k * 2} (omega (arith, pow-suc 2 k)))

-- A field shifted above `k` bits, joined with a number of at most that many.
pub bit_or_shifted : (q r k : ℕ) → r < 2 ^ k → bit_or (q <<< k) r ≡ q * 2 ^ k + r
bit_or_shifted q zero zero fits = omega (arith, bit_or-zero (q * 2 ^ 0))
bit_or_shifted q (suc r) zero fits = absurd (omega arith)
bit_or_shifted q r (suc k) fits =
    let halved = bit_or_shifted q (r / 2) k (omega (arith, pow-suc 2 k)) in
    ground (arith, halved, pow-suc 2 k, scale k q, or_last (q * 2 ^ suc k) r)

masked_sum : (k q r : ℕ) → r < 2 ^ k → bit_and (q * 2 ^ k + r) (2 ^ k - 1) ≡ r
masked_sum zero q r fits = omega (arith, bit_and-le (q * 2 ^ 0 + r) 0)
masked_sum (suc k) q r fits = ground (
  arith,
  and_last (q * 2 ^ suc k + r) (2 ^ suc k - 1),
  scale k q,
  pow-suc 2 k,
  one-le-pow k 2,
  masked_sum k q (r / 2) (omega (arith, pow-suc 2 k)),
)

-- `a & (2^k - 1)` is the remainder by `2^k`.
pub bit_and_mask : (k a : ℕ) → bit_and a (2 ^ k - 1) ≡ a % 2 ^ k
bit_and_mask k a = ground (arith, one-le-pow k 2, masked_sum k (a / 2 ^ k) (a % 2 ^ k))

-- Two more forms at the widths of the program: clearing, and setting one bit above a field.
pub bit_and_one : (a : ℕ) → bit_and a 1 ≡ a % 2
bit_and_one a = bit_and_mask 1 a

one_bit_sum : (k q r : ℕ) → r < 2 ^ k → bit_and (q * 2 ^ k + r) (2 ^ k) ≡ q % 2 * 2 ^ k
one_bit_sum zero q r fits = omega (arith, bit_and_one (q * 2 ^ 0 + r))
one_bit_sum (suc k) q r fits = ground (
  arith,
  and_last (q * 2 ^ suc k + r) (2 ^ suc k),
  scale k q,
  scale k (q % 2),
  pow-suc 2 k,
  one-le-pow k 2,
  one_bit_sum k q (r / 2) (omega (arith, pow-suc 2 k)),
)

-- `a & (1 << k)` keeps bit `k` in its place.
pub bit_and_bit : (k a : ℕ) → bit_and a (2 ^ k) ≡ a / 2 ^ k % 2 * 2 ^ k
bit_and_bit k a = ground (arith, one-le-pow k 2, one_bit_sum k (a / 2 ^ k) (a % 2 ^ k))

-- `a | r` is a sum where the bits of `r` lie below those of `a`.
pub bit_or_add : (k a r : ℕ) → a % 2 ^ k ≡ 0 → r < 2 ^ k → bit_or a r ≡ a + r
bit_or_add k a r above below = rw (← whole) (bit_or_shifted (a / 2 ^ k) r k below)
  where
    whole : a / 2 ^ k * 2 ^ k ≡ a
    whole = omega (arith, div-add-mod a (2 ^ k))

high_mask_sum :
    (k q r m : ℕ) → r < 2 ^ k → bit_and (q * 2 ^ k + r) (m * 2 ^ k) ≡ bit_and q m * 2 ^ k
high_mask_sum zero q r m fits =
    ap (λ a. bit_and a (m * 2 ^ 0)) {x = q * 2 ^ 0 + r} {y = q} (omega arith)
    ∙ ap (bit_and q) {x = m * 2 ^ 0} {y = m} (omega arith)
    ∙ omega arith
high_mask_sum (suc k) q r m fits = ground (
  arith,
  and_last (q * 2 ^ suc k + r) (m * 2 ^ suc k),
  scale k q,
  scale k m,
  scale k (bit_and q m),
  pow-suc 2 k,
  one-le-pow k 2,
  high_mask_sum k q (r / 2) m (omega (arith, pow-suc 2 k)),
)

-- `a & (m << k)` masks the bits from bit `k` on.
pub bit_and_high : (k a m : ℕ) → bit_and a (m * 2 ^ k) ≡ bit_and (a / 2 ^ k) m * 2 ^ k
bit_and_high k a m = ground (arith, one-le-pow k 2, high_mask_sum k (a / 2 ^ k) (a % 2 ^ k) m)

or_comm_below : (n a b : ℕ) → a + b ≤ n → bit_or a b ≡ bit_or b a
or_comm_below n zero zero h = refl
or_comm_below zero (suc a) b h = absurd (omega arith)
or_comm_below zero zero (suc b) h = absurd (omega arith)
or_comm_below (suc n) (suc a) b h =
    omega (
      arith,
      or_last (suc a) b,
      or_last b (suc a),
      or_comm_below n (suc a / 2) (b / 2) (omega arith),
    )
or_comm_below (suc n) zero (suc b) h = omega (
  arith,
  or_last zero (suc b),
  or_last (suc b) zero,
  or_comm_below n (0 / 2) (suc b / 2) (omega arith),
)

pub bit_or_comm : (a b : ℕ) → bit_or a b ≡ bit_or b a
bit_or_comm a b = or_comm_below (a + b) a b (le_refl _)
