-- ===== src/Memory.antt =====
-- `memmove` and `memcmp` of src/allocator.cpp. Memory is the list of the bytes of one object, in
-- which the pointers are indices; a read or store outside it is `none`.
pub mod Pool
pub mod Move
pub mod Overlap
pub mod Compare
use tiny_os64v.Base.{
  ℕ, zero, suc, ◌+◌, List, Option, none, some, Bool, true, false, ltb, ◌==◌, if◌then◌else◌, ◌>>=?◌,
  get_elem?, set, length,
}

abbrev pub store_byte : List ℕ → ℕ → ℕ → Option (List ℕ)
store_byte mem i v = if ltb i (length mem) then some (set mem i v) else none

-- The loop of `memmove`, with `n` bytes left.
unfoldable pub memmove : (n dst src : ℕ) → List ℕ → Option (List ℕ)
memmove zero dst src mem = some mem
memmove (suc n) dst src mem =
    get_elem? mem src >>=? λ v. store_byte mem dst v >>=? λ mem'. memmove n (dst + 1) (src + 1) mem'

-- The order of two bytes that differ, by their sign and value as `char`: -1 or 1.
pub data Order : Type 0 where
  before same behind : Order

abbrev pub signed_before : ℕ → ℕ → Bool
signed_before a b =
    if ltb a 128
    then (if ltb b 128 then ltb a b else false)
    else (if ltb b 128 then true else ltb a b)

-- `memcmp`, where `same` is 0, `before` is -1, and `behind` is 1.
unfoldable pub memcmp : (count s1 s2 : ℕ) → List ℕ → Option Order
memcmp zero s1 s2 mem = some Order.same
memcmp (suc count) s1 s2 mem = get_elem? mem s1 >>=? λ a. get_elem? mem s2 >>=? λ b.
    if a == b
    then memcmp count (s1 + 1) (s2 + 1) mem
    else some (if signed_before a b then Order.before else Order.behind)
