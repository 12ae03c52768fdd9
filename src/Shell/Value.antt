-- ===== src/Shell/Value.antt =====
-- The number parsers of src/commands.cpp. Values are of 64 bits.
pub mod RoundTrip
use tiny_os64v.Base.{
  ℕ, ◌+◌, ◌-◌, ◌*◌, ◌^◌, List, [], ◌∷◌, Option, none, some, Bool, true, false, ◌&&◌, ◌||◌, leb,
  ◌==◌, if◌then◌else◌, u64, bit_and, bit_or, ◌<<<◌,
}

unfoldable pub is_numeric : ℕ → Bool
is_numeric c = leb b'0' c && leb c b'9'

unfoldable pub is_hex : ℕ → Bool
is_hex c = (leb b'0' c && leb c b'9') || (leb b'a' c && leb c b'f') || (leb b'A' c && leb c b'F')

unfoldable pub hexchar2value : ℕ → ℕ
hexchar2value c =
    if leb b'0' c && leb c b'9'
    then bit_and (c - b'0') 0x0F
    else if leb b'a' c && leb c b'f'
    then bit_and (c - b'a' + 10) 0x0F
    else if leb b'A' c && leb c b'F'
    then bit_and (c - b'A' + 10) 0x0F
    else 0

-- The loops, on the characters left and the value so far.
unfoldable pub hex_loop : List ℕ → ℕ → Option ℕ
hex_loop [] value = some value
hex_loop (c ∷ str) value =
    let rest = hex_loop str (bit_or (u64 (value <<< 4)) (hexchar2value c)) in
    if is_hex c then rest else none

unfoldable pub dec_loop : List ℕ → ℕ → Option ℕ
dec_loop [] value = some value
dec_loop (c ∷ str) value =
    let rest = dec_loop str (u64 (u64 (value * 10) + (c - b'0'))) in
    if is_numeric c then rest else none

-- The first character is the dollar sign and is skipped.
unfoldable pub value_from_hex_str : List ℕ → Option ℕ
value_from_hex_str [] = some 0
value_from_hex_str (c ∷ str) = hex_loop str 0

unfoldable pub value_from_dec_str : List ℕ → Option ℕ
value_from_dec_str str = dec_loop str 0

unfoldable pub value_from_str : List ℕ → Option ℕ
value_from_str [] = none
value_from_str (c ∷ str) =
    if c == b'$' then value_from_hex_str (c ∷ str) else value_from_dec_str (c ∷ str)
