-- ===== src/Print/Hex.antt =====
-- `toHex` and `toHex32` of src/myprint.cpp.
use tiny_os64v.Base.{
  ℕ, zero, suc, ◌+◌, ◌-◌, ◌*◌, bit_and, Option, some, List, [], ◌∷◌, ◌≡◌, refl, arith, leb,
  if◌then◌else◌, ◌>>=?◌, u32, ◌>>>◌, length, ap,
}
use mathlib.Core.Path.{fun_ext}
use tiny_os64v.Bits.{bit_and-le}
use tiny_os64v.Print.Output.{Output, putc, put_all}

-- The character put for `digit`.
unfoldable pub hex_char : ℕ → ℕ
hex_char digit = if leb digit 9 then b'0' + digit else b'A' + digit - 10

-- The loop of both functions at round `i`, with `left` of its `digits` rounds to go.
unfoldable pub hex_loop : (digits left i : ℕ) → ℕ → Output → Option Output
hex_loop digits zero i val o = some o
hex_loop digits (suc left) i val o =
    putc o (hex_char (u32 (bit_and (val >>> ((digits - i - 1) * 4)) 0x0F))) >>=? λ o'.
    hex_loop digits left (i + 1) val o'

unfoldable pub to_hex : Output → ℕ → Option Output
to_hex o val = hex_loop 16 16 0 val o

unfoldable pub to_hex32 : Output → ℕ → Option Output
to_hex32 o val = hex_loop 8 8 0 val o

-- The digits of `val` from the given place down.
unfoldable pub hex_text : ℕ → ℕ → List ℕ
hex_text zero val = []
hex_text (suc k) val = hex_char (bit_and (val >>> (k * 4)) 0x0F) ∷ hex_text k val

hex_loop-put_all :
    (digits left i val : ℕ) (o : Output)
    → i + left ≡ digits
    → hex_loop digits left i val o ≡ put_all o (hex_text left val)
unfolding hex_loop hex_text put_all
hex_loop-put_all digits zero i val o e = refl
hex_loop-put_all digits (suc left) i val o e =
    let place : digits - i - 1 ≡ left = omega arith in
    let digit = bit_and (val >>> (left * 4)) 0x0F in
    let small : u32 digit ≡ digit = omega (arith, bit_and-le (val >>> (left * 4)) 0x0F) in
    rw (place, small)
      (ap (λ k. putc o (hex_char digit) >>=? k)
        (fun_ext λ o'. hex_loop-put_all digits left (i + 1) val o' (omega arith)))

-- `toHex` puts the 16 hex digits of its argument.
pub to_hex-put_all : (o : Output) (val : ℕ) → to_hex o val ≡ put_all o (hex_text 16 val)
unfolding to_hex
to_hex-put_all o val = hex_loop-put_all 16 16 0 val o refl

-- `toHex32` puts the eight low hex digits of its argument.
pub to_hex32-put_all : (o : Output) (val : ℕ) → to_hex32 o val ≡ put_all o (hex_text 8 val)
unfolding to_hex32
to_hex32-put_all o val = hex_loop-put_all 8 8 0 val o refl

pub length-hex_text : (k val : ℕ) → length (hex_text k val) ≡ k
unfolding hex_text
length-hex_text zero val = refl
length-hex_text (suc k) val = ap suc (length-hex_text k val)
