-- ===== src/Print/Decimal/Digits.antt =====
-- What `toUDec` puts: the significant digits of its argument, or one zero.
use mathlib.Core.List.{cons-ne-nil}
use tiny_os64v.Base.{
  ℕ, suc, ◌+◌, ◌-◌, ◌*◌, ◌^◌, ◌≤◌, ◌<◌, Option, none, some, List, [], ◌∷◌, ◌++◌, Bool, true, false,
  ◌==◌, if◌then◌else◌, ◌>>=?◌, >>=?-assoc, ◌≡◌, ◌≢◌, refl, arith, ap, length, All, All-append,
  length-append, ◌∙◌, sym, Bool-cases, inl, inr, ◌⊎◌,
}
use tiny_os64v.Print.Output.{Output, putc, put_all, put_all-append}
use tiny_os64v.Print.Decimal.{Strip, strip_digit, strip, put_zero, to_udec, dec_rounds, ten_zeros}
use tiny_os64v.Print.Decimal.Doubling.{value, IsDigit, dec_rounds-value}

-- A digit behind the significant digits above it.
abbrev pub push : List ℕ → ℕ → List ℕ
push [] d = if d == 0 then [] else (d + b'0') ∷ []
push (c ∷ t) d = (c ∷ t) ++ (d + b'0') ∷ []

abbrev pub significant : List ℕ → List ℕ
significant [] = []
significant (d ∷ ds) = push (significant ds) d

abbrev pub or_zero : List ℕ → List ℕ
or_zero [] = b'0' ∷ []
or_zero (c ∷ t) = c ∷ t

abbrev pub is_nil : List ℕ → Bool
is_nil [] = true
is_nil (c ∷ t) = false

unfoldable pub udec_text : ℕ → List ℕ
udec_text val = or_zero (significant (dec_rounds 32 ten_zeros val))

-- The state after text `t` and `n` rounds.
abbrev stripped : Output → List ℕ → ℕ → Option Strip
stripped o t n =
    put_all o t >>=? λ o'. some (record { output = o'; leading_zero = is_nil t; chars = n })

put_digit :
    (m : Option Output) (d n : ℕ)
    → ((m >>=? λ o'. some (record { output = o'; leading_zero = false; chars = n }))
        >>=? strip_digit d)
      ≡ ((m >>=? λ o'. put_all o' ((d + b'0') ∷ [])) >>=? λ o'.
          some (record { output = o'; leading_zero = false; chars = n + 1 }))
unfolding strip_digit put_all
put_digit none d n = refl
put_digit (some o) d n = ground arith

strip_one :
    (o : Output) (t : List ℕ) (d n : ℕ)
    → (stripped o t n >>=? strip_digit d) ≡ stripped o (push t d) (n + 1)
unfolding strip_digit put_all
strip_one o [] d n = ground arith
strip_one o (c ∷ t) d n =
    put_digit (put_all o (c ∷ t)) d n
    ∙ ap (λ m. m >>=? λ o'. some (record { output = o'; leading_zero = false; chars = n + 1 }))
        (sym (put_all-append o (c ∷ t) ((d + b'0') ∷ [])))

-- The loop that strips zeros puts the significant digits.
strip-stripped :
    (o : Output) (ds : List ℕ)
    → strip ds (record { output = o; leading_zero = true; chars = 0 })
      ≡ stripped o (significant ds) (length ds)
unfolding strip
strip-stripped o [] = unfold put_all in refl
strip-stripped o (d ∷ ds) = rw (strip-stripped o ds) (
    strip_one o (significant ds) d (length ds)
    ∙ ap (stripped o (push (significant ds) d)) (omega arith))

-- The count that `toUDec` returns behind text `t` of `n` digits.
abbrev pub counted : List ℕ → ℕ → ℕ
counted t n = if is_nil t then n + 1 else n

stripped-put_zero :
    (o : Output) (t : List ℕ) (n : ℕ)
    → (stripped o t n >>=? put_zero) ≡ (put_all o (or_zero t) >>=? λ o'. some (o', counted t n))
unfolding put_all put_zero
stripped-put_zero o [] n = sym (>>=?-assoc (putc o b'0') _ _)
stripped-put_zero o (c ∷ t) n = >>=?-assoc (put_all o (c ∷ t)) _ _

put_text :
    (o : Output) (ds : List ℕ) {n : ℕ}
    → length ds ≡ n
    → (strip ds (record { output = o; leading_zero = true; chars = 0 }) >>=? put_zero)
      ≡ (put_all o (or_zero (significant ds)) >>=? λ o'. some (o', counted (significant ds) n))
put_text o ds e = rw (strip-stripped o ds, ← e) (stripped-put_zero o (significant ds) (length ds))

-- `toUDec` puts `udec_text` of its argument. What it returns does not tell how many characters.
pub to_udec-put_all :
    (o : Output) (val : ℕ)
    → val < 2 ^ 32
    → to_udec o val ≡ (
        put_all o (udec_text val) >>=? λ o'.
        some (o', counted (significant (dec_rounds 32 ten_zeros val)) 10))
unfolding to_udec udec_text
to_udec-put_all o val h = put_text o (dec_rounds 32 ten_zeros val) (dec_rounds-value val h).2

-- The number that digits spell behind `n`.
abbrev pub spelled : ℕ → List ℕ → ℕ
spelled n [] = n
spelled n (c ∷ t) = spelled (n * 10 + (c - b'0')) t

abbrev pub IsDigitChar : ℕ → Type 0
IsDigitChar c = (b'0' ≤ c) × (c ≤ b'9')

abbrev NoLead : List ℕ → Type 0
NoLead [] = Unit
NoLead (c ∷ t) = c ≢ b'0'

spelled-append :
    (n : ℕ) (t : List ℕ) (c : ℕ) → spelled n (t ++ c ∷ []) ≡ spelled n t * 10 + (c - b'0')
spelled-append n [] c = refl
spelled-append n (x ∷ t) c = spelled-append (n * 10 + (x - b'0')) t c

record IsDigits (t : List ℕ) (n len : ℕ) : Type 0 where
  chars : All IsDigitChar t
  spells : spelled 0 t ≡ n
  no_lead : NoLead t
  short : length t ≤ len

push-IsDigits :
    (t : List ℕ) (d : ℕ) {n len : ℕ}
    → d < 10
    → IsDigits t n len
    → IsDigits (push t d) (d + 10 * n) (suc len)
push-IsDigits [] d h is = elim (Bool-cases (d == 0)) [
  | inl zero_digit ↦
      rw zero_digit
        (record { chars = tt; spells = ground arith; no_lead = tt; short = omega arith })
  | inr digit ↦ rw digit (record {
    chars = ((omega arith, omega arith), tt);
    spells = omega (arith, is.spells);
    no_lead = ground arith;
    short = omega arith;
  })
]
push-IsDigits (c ∷ t) d h is = record {
  chars =
      All-append IsDigitChar (c ∷ t) ((d + b'0') ∷ []) is.chars ((omega arith, omega arith), tt);
  spells = omega (arith, spelled-append 0 (c ∷ t) (d + b'0'), is.spells);
  no_lead = is.no_lead;
  short = omega (arith, length-append (c ∷ t) ((d + b'0') ∷ []), is.short);
}

significant-IsDigits :
    (ds : List ℕ) → All IsDigit ds → IsDigits (significant ds) (value ds) (length ds)
significant-IsDigits [] h = record { chars = tt; spells = refl; no_lead = tt; short = omega arith }
significant-IsDigits (d ∷ ds) h = push-IsDigits (significant ds) d h.0 (significant-IsDigits ds h.1)

-- The canonical decimal text of `n`: digits that spell it, the first no zero unless it is the only
-- one, and ten at most.
pub record IsDecimal (t : List ℕ) (n : ℕ) : Type 0 where
  pub chars : All IsDigitChar t
  pub spells : spelled 0 t ≡ n
  pub nonempty : t ≢ []
  pub no_leading_zero : (t ≡ b'0' ∷ []) ⊎ NoLead t
  pub short : length t ≤ 10

or_zero-IsDecimal :
    (t : List ℕ) {n m len : ℕ} → IsDigits t m len → m ≡ n → len ≡ 10 → IsDecimal (or_zero t) n
or_zero-IsDecimal [] is e ten = record {
  chars = omega arith;
  spells = is.spells ∙ e;
  nonempty = cons-ne-nil _ _;
  no_leading_zero = inl refl;
  short = omega arith;
}
or_zero-IsDecimal (c ∷ t) is e ten = record {
  chars = is.chars;
  spells = is.spells ∙ e;
  nonempty = cons-ne-nil _ _;
  no_leading_zero = inr is.no_lead;
  short = omega (arith, is.short);
}

-- `udec_text` is the canonical decimal text of its argument.
pub udec_text-IsDecimal : (val : ℕ) → val < 2 ^ 32 → IsDecimal (udec_text val) val
unfolding udec_text
udec_text-IsDecimal val h =
    let (digits, stands, ten) = dec_rounds-value val h in
    or_zero-IsDecimal (significant (dec_rounds 32 ten_zeros val))
      (significant-IsDigits (dec_rounds 32 ten_zeros val) digits) stands ten

-- What `toUDec` does to `o` at `val`: it puts the decimal text of `val`, and returns some count.
pub record PutsDecimal (o : Output) (val : ℕ) (r : Option (Output × ℕ)) : Type 0 where
  pub text : List ℕ
  pub count : ℕ
  pub returns : r ≡ (put_all o text >>=? λ o'. some (o', count))
  pub decimal : IsDecimal text val

-- `toUDec` puts the canonical decimal text of its argument: its digits, without leading zeros, and
-- one zero for the number zero.
pub to_udec-PutsDecimal : (o : Output) (val : ℕ) → val < 2 ^ 32 → PutsDecimal o val (to_udec o val)
to_udec-PutsDecimal o val h = record {
  text = udec_text val;
  count = _;
  returns = to_udec-put_all o val h;
  decimal = udec_text-IsDecimal val h;
}
