-- ===== src/Shell/Value/RoundTrip.antt =====
-- The number parsers read what `toUDec` and the hex printers write.
use tiny_os64v.Base.{
  ℕ, zero, suc, ◌+◌, ◌-◌, ◌*◌, ◌/◌, ◌%◌, ◌^◌, ◌≤◌, ◌<◌, List, [], ◌∷◌, some, true, ◌&&◌, leb, u64,
  bit_and, bit_or, ◌<<<◌, ◌≡◌, ◌≢◌, refl, arith, All, ap, sym, ◌∙◌, ◌↔◌,
}
use native.Mathlib.Nat.{pow-suc, div-div-eq-div-mul, div-le_self, div-eq_of_lt}
use tiny_os64v.Bits.{bit_and_mask, bit_and-le, bit_or_shifted}
use tiny_os64v.Print.Hex.{hex_char, hex_text}
use tiny_os64v.Print.Decimal.Digits.{udec_text, udec_text-IsDecimal, IsDigitChar, spelled}
use tiny_os64v.Shell.Value.{
  is_numeric, is_hex, hexchar2value, hex_loop, dec_loop, value_from_hex_str, value_from_dec_str,
  value_from_str,
}

-- Two numbers that agree modulo 2 ^ 64 agree behind the same digits.
spelled-mod : (t : List ℕ) (a b : ℕ) → u64 a ≡ u64 b → u64 (spelled a t) ≡ u64 (spelled b t)
spelled-mod [] a b e = e
spelled-mod (c ∷ t) a b e = spelled-mod t (a * 10 + (c - b'0')) (b * 10 + (c - b'0')) (omega arith)

-- The parser takes digits alone, and its value is what they spell, modulo 2 ^ 64.
dec_loop-spelled :
    (t : List ℕ) (n : ℕ) → All IsDigitChar t → n < 2 ^ 64 → dec_loop t n ≡ some (u64 (spelled n t))
unfolding dec_loop is_numeric
dec_loop-spelled [] n h small = ap some (omega arith)
dec_loop-spelled (c ∷ t) n h small =
    let next = u64 (u64 (n * 10) + (c - b'0')) in
    rw (digit h.0) (
      dec_loop-spelled t next h.1 (omega arith)
      ∙ ap some (spelled-mod t next (n * 10 + (c - b'0')) (omega arith)))
  where
    digit : IsDigitChar c → (leb b'0' c && leb c b'9') ≡ true
    digit d = ground arith

dec_loop-All : (t : List ℕ) (n v : ℕ) → dec_loop t n ≡ some v → All IsDigitChar t
unfolding dec_loop is_numeric
dec_loop-All [] n v e = tt
dec_loop-All (c ∷ t) n v e = ground (arith, dec_loop-All t (u64 (u64 (n * 10) + (c - b'0'))) v)

-- `valueFromDecStr` accepts exactly the texts of digits, the empty one included, and returns the
-- number that they spell modulo 2 ^ 64.
pub value_from_dec_str_iff :
    (t : List ℕ) (v : ℕ)
    → (value_from_dec_str t ≡ some v) ↔ (All IsDigitChar t × (v ≡ u64 (spelled 0 t)))
unfolding value_from_dec_str
value_from_dec_str_iff t v = (
  λ e.
      let digits = dec_loop-All t 0 v e in
      (digits, cc (e, dec_loop-spelled t 0 digits (omega arith))),
  λ h. rw h.1 (dec_loop-spelled t 0 h.0 (omega arith)),
)

first_digit : (t : List ℕ) → All IsDigitChar t → t ≢ [] → value_from_str t ≡ value_from_dec_str t
unfolding value_from_str
first_digit [] h ne = absurd (ne refl)
first_digit (c ∷ t) h ne = ground arith

-- Every `uint32_t` is read back from its decimal print.
pub value_from_str-udec_text : (v : ℕ) → v < 2 ^ 32 → value_from_str (udec_text v) ≡ some v
value_from_str-udec_text v h =
    let d = udec_text-IsDecimal v h in
    first_digit (udec_text v) d.chars d.nonempty
    ∙ (value_from_dec_str_iff (udec_text v) v).1 (d.chars, omega (arith, d.spells))

hexchar2value-hex_char : (d : ℕ) → d ≤ 15 → hexchar2value (hex_char d) ≡ d
unfolding hexchar2value hex_char
hexchar2value-hex_char d h = ground (arith, bit_and_mask 4 d, bit_and_mask 4 (d - 10 + 10))

is_hex-hex_char : (d : ℕ) → d ≤ 15 → is_hex (hex_char d) ≡ true
unfolding is_hex hex_char
is_hex-hex_char d h = ground arith

next_place : (val k : ℕ) → val / 2 ^ (suc k * 4) ≡ val / 2 ^ (k * 4) / 16
next_place val k = ap (λ (t : ℕ). val / t) power ∙ sym (div-div-eq-div-mul val (2 ^ (k * 4)) 16)
  where
    four : suc k * 4 ≡ suc (suc (suc (suc (k * 4))))
    four = omega arith

    power : 2 ^ (suc k * 4) ≡ 2 ^ (k * 4) * 16
    power = rw four (
        omega (
          arith,
          pow-suc 2 (suc (suc (suc (k * 4)))),
          pow-suc 2 (suc (suc (k * 4))),
          pow-suc 2 (suc (k * 4)),
          pow-suc 2 (k * 4),
        ))

-- The value so far, and the digit read behind it.
join :
    (q : ℕ)
    → q < 2 ^ 64
    → bit_or (u64 ((q / 16) <<< 4)) (hexchar2value (hex_char (bit_and q 15))) ≡ q
join q h =
    rw (hexchar2value-hex_char (bit_and q 15) (bit_and-le q 15), bit_and_mask 4 q, whole)
      (bit_or_shifted (q / 16) (q % 16) 4 (omega arith) ∙ omega arith)
  where
    whole : u64 ((q / 16) <<< 4) ≡ (q / 16) <<< 4
    whole = omega arith

quotient-lt : (val n : ℕ) → val < 2 ^ 64 → val / n < 2 ^ 64
quotient-lt val n h = grind (arith, div-le_self)

hex_loop-hex_text :
    (k val : ℕ) → val < 2 ^ 64 → hex_loop (hex_text k val) (val / 2 ^ (k * 4)) ≡ some val
unfolding hex_loop hex_text
hex_loop-hex_text zero val h = ap some (omega arith)
hex_loop-hex_text (suc k) val h =
    let q = val / 2 ^ (k * 4) in
    rw
      (
        is_hex-hex_char (bit_and q 15) (bit_and-le q 15),
        next_place val k,
        join q (quotient-lt val (2 ^ (k * 4)) h),
      )
      (hex_loop-hex_text k val h)

-- Every number of up to 64 bits is read back from its hex digits behind a dollar sign, if there
-- are enough of them.
pub value_from_str-hex_text :
    (k v : ℕ) → v < 2 ^ 64 → v < 2 ^ (k * 4) → value_from_str (b'$' ∷ hex_text k v) ≡ some v
unfolding value_from_str value_from_hex_str
value_from_str-hex_text k v h fits =
    ap (hex_loop (hex_text k v)) (sym (div-eq_of_lt fits)) ∙ hex_loop-hex_text k v h
