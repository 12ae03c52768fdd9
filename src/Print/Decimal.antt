-- ===== src/Print/Decimal.antt =====
-- `toUDec` of src/myprint.cpp: decimal print by doubling the digits, 32 times.
pub mod Doubling
pub mod Digits
use tiny_os64v.Base.{
  ℕ, zero, suc, ◌+◌, ◌-◌, ◌*◌, ◌^◌, bit_and, bit_or, Option, none, some, List, [], ◌∷◌, ◌++◌, Bool,
  true, false, ◌&&◌, leb, ◌==◌, if◌then◌else◌, ◌>>=?◌, u8, u32, ◌<<<◌, ◌≡◌, refl, codes,
}
use tiny_os64v.Print.Output.{Output, putc}

-- `(digits[d] << 1) | overflow`, as a `uint8_t`.
unfoldable pub doubled : ℕ → ℕ → ℕ
doubled d overflow = u8 (bit_or (d <<< 1) overflow)

-- The inner loop, over the digits from the lowest up. The last overflow is dropped.
unfoldable pub shift_digits : List ℕ → ℕ → List ℕ
shift_digits [] overflow = []
shift_digits (d ∷ ds) overflow =
    let v = doubled d overflow in
    (if leb 10 v then v - 10 else v) ∷ shift_digits ds (if leb 10 v then 1 else 0)

-- The outer loop with `left` rounds to go.
unfoldable pub dec_rounds : ℕ → List ℕ → ℕ → List ℕ
dec_rounds zero ds val = ds
dec_rounds (suc left) ds val =
    let overflow : ℕ = if bit_and val 0x80000000 == 0 then 0 else 1 in
    dec_rounds left (shift_digits ds overflow) (u32 (val <<< 1))

abbrev pub ten_zeros : List ℕ
ten_zeros = 0 ∷ 0 ∷ 0 ∷ 0 ∷ 0 ∷ 0 ∷ 0 ∷ 0 ∷ 0 ∷ 0 ∷ []

-- The variables of the loop that strips leading zeros.
pub record Strip : Type 0 where
  pub output : Output
  pub leading_zero : Bool
  pub chars : ℕ

unfoldable pub strip_digit : ℕ → Strip → Option Strip
strip_digit d s =
    if d == 0 && s.leading_zero
    then some (record s { chars = s.chars + 1 })
    else (putc s.output (d + b'0') >>=? λ o.
        some (record { output = o; leading_zero = false; chars = s.chars + 1 }))

-- The loop reads `digits[9 - i]` for `i` from 0, so the list from its end.
unfoldable pub strip : List ℕ → Strip → Option Strip
strip [] s = some s
strip (d ∷ ds) s = strip ds s >>=? strip_digit d

-- What follows that loop: a number with leading zeros only is printed as one zero.
unfoldable pub put_zero : Strip → Option (Output × ℕ)
put_zero s =
    if s.leading_zero
    then (putc s.output b'0' >>=? λ o. some (o, s.chars + 1))
    else some (s.output, s.chars)

unfoldable pub to_udec : Output → ℕ → Option (Output × ℕ)
to_udec o val =
    strip (dec_rounds 32 ten_zeros val) (record { output = o; leading_zero = true; chars = 0 })
    >>=? put_zero
