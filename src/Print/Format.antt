-- ===== src/Print/Format.antt =====
-- `format` and `snprintf` of src/myprint.cpp, and `print` of src/main.cpp.
pub mod Render
pub mod Bounds
use tiny_os64v.Base.{
  ℕ, zero, suc, ◌+◌, ◌-◌, ◌*◌, ◌^◌, ◌%◌, bit_and, Option, none, some, List, [], ◌∷◌, ◌++◌, Bool,
  true, false, String, codes, ltb, ◌==◌, if◌then◌else◌, ◌>>=?◌, u8, u32, u64,
}
use tiny_os64v.Print.Output.{Output, limited_string, putc, terminate, get_length}
use tiny_os64v.Print.Hex.{to_hex, to_hex32}
use tiny_os64v.Print.Decimal.{to_udec}

-- An argument: a slot of 64 bits, or a pointer to characters, given with the memory from there to
-- the end of the object that it points into.
pub data Arg : Type 0 where
  word : ℕ → Arg
  chars : List ℕ → Arg

-- A string literal in memory.
abbrev pub c_string : String → List ℕ
c_string s = codes s ++ 0 ∷ []

-- `va_arg`: a missing argument is a fault. Printing a pointer as a number is not modelled.
abbrev pub next_word : List Arg → Option (ℕ × List Arg)
next_word [] = none
next_word (word w ∷ va) = some (w, va)
next_word (chars s ∷ va) = none

abbrev pub next_chars : List Arg → Option (List ℕ × List Arg)
next_chars [] = none
next_chars (word w ∷ va) = none
next_chars (chars s ∷ va) = some (s, va)

-- A `char` as a `wchar_t`: `char` is signed, so a byte from 128 on gets the high byte 0xFF.
abbrev pub wide : ℕ → ℕ
wide c = if ltb c 128 then c else c + 0xFF00

-- `while (*charptr != 0) putc(*charptr++)`.
unfoldable pub put_string : List ℕ → Output → Option Output
put_string [] o = none
put_string (c ∷ s) o =
    let rest = putc o (wide c) >>=? put_string s in if c == 0 then some o else rest

-- `%u`, with the count that `toUDec` returns dropped.
unfoldable pub put_unsigned : ℕ → Output → Option Output
put_unsigned v o = to_udec o v >>=? λ r. some (r.0)

-- `%d`: the two's complement of a negative number behind a minus sign.
unfoldable pub put_signed : ℕ → Output → Option Output
put_signed v o =
    if bit_and v 0x80000000 == 0
    then put_unsigned v o
    else (putc o b'-' >>=? put_unsigned (u32 (2 ^ 32 - 1 - v + 1)))

abbrev pub with_word : (ℕ → Output → Option Output) → Output → List Arg → Option (Output × List Arg)
with_word put o va = next_word va >>=? λ a. put a.0 o >>=? λ o'. some (o', a.1)

abbrev pub with_chars :
    (List ℕ → Output → Option Output) → Output → List Arg → Option (Output × List Arg)
with_chars put o va = next_chars va >>=? λ a. put a.0 o >>=? λ o'. some (o', a.1)

abbrev pub with_none : (Output → Option Output) → Output → List Arg → Option (Output × List Arg)
with_none put o va = put o >>=? λ o'. some (o', va)

-- The `switch` on the character behind a percent sign.
unfoldable pub directive : ℕ → Output → List Arg → Option (Output × List Arg)
directive ch o va =
    if ch == b'X'
    then with_word (λ w o. to_hex o (u64 w)) o va
    else if ch == b'x'
    then with_word (λ w o. to_hex32 o (u32 w)) o va
    else if ch == b'u'
    then with_word (λ w o. put_unsigned (u32 w) o) o va
    else if ch == b'd'
    then with_word (λ w o. put_signed (u32 w) o) o va
    else if ch == b'c'
    then with_word (λ w o. putc o (wide (u8 w))) o va
    else if ch == b's'
    then with_chars put_string o va
    else if ch == b'%'
    then with_none (λ o. putc o b'%') o va
    else with_none (λ o. putc o b'?') o va

-- The loop over the format, whose characters reach to the end of its object. The flag says that the
-- character before was a percent sign, whose directive this one is.
unfoldable pub format_loop : Bool → List ℕ → Output → List Arg → Option Output
format_loop pending [] o va = none
format_loop true (ch ∷ fmt) o va = directive ch o va >>=? λ r. format_loop false fmt r.0 r.1
format_loop false (ch ∷ fmt) o va =
    let percent = format_loop true fmt o va in
    let plain = putc o (wide ch) >>=? λ o'. format_loop false fmt o' va in
    if ch == 0 then some o else if ch == b'%' then percent else plain

unfoldable pub format : Output → List ℕ → List Arg → Option Output
format o fmt va = format_loop false fmt o va

-- The array that `s` points to, as it is left, and the number of characters in it.
unfoldable pub snprintf : List ℕ → ℕ → List ℕ → List Arg → Option (List ℕ × ℕ)
snprintf s n fmt va = format (limited_string s n) fmt va >>=? λ o.
    terminate o >>=? λ o'. some (o'.buffer, get_length o')

-- `print` of src/main.cpp on its array `buffer` of 256 `wchar_t`: it passes `sizeof(buffer)`, which
-- is 512. The result is what it hands to `m_outputString`, and the count that it returns.
unfoldable pub print : List ℕ → List ℕ → List Arg → Option (List ℕ × ℕ)
print buffer fmt va = snprintf buffer (256 * 2) fmt va
