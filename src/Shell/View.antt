-- ===== src/Shell/View.antt =====
-- `std::string_view`, and `findNextParam` and `getCommand` of src/commands.cpp.
pub mod Words
pub mod Command
use tiny_os64v.Base.{
  ℕ, zero, suc, ◌+◌, ◌-◌, List, [], ◌∷◌, Option, none, some, Bool, true, false, ◌&&◌, ◌||◌, ltb,
  leb, ◌==◌, if◌then◌else◌, ◌>>=?◌, take, drop,
}

-- A view: the memory from `data()` to the end of the object that it points into, and `size()`. The
-- null view points to no memory.
pub record View : Type 0 where
  pub bytes : List ℕ
  pub size : ℕ

abbrev pub view : List ℕ → ℕ → View
view b n = record { bytes = b; size = n }

abbrev pub null_view : View
null_view = view [] 0

abbrev pub text : View → List ℕ
text v = take v.size v.bytes

-- `std::string_view(v.data() + start, n)`.
abbrev pub sub_view : View → ℕ → ℕ → View
sub_view v start n = view (drop start v.bytes) n

pub record ParamResult : Type 0 where
  pub param : View
  pub remainder : View

abbrev pub space : ℕ
space = 32

-- The first loop, at index `start` over the memory from there: the index where it ends, or none if
-- no parameter is left. `none` outside is a read past the memory.
unfoldable pub skip_spaces : (size start : ℕ) → List ℕ → Option (Option ℕ)
skip_spaces size start [] = none
skip_spaces size start (c ∷ bytes) =
    let rest = skip_spaces size (start + 1) bytes in
    if c == space then (if start + 1 == size then some none else rest) else some (some start)

-- The second loop: it reads a character before it compares the index with the size.
unfoldable pub find_end : (size end : ℕ) → List ℕ → Option ℕ
find_end size end [] = none
find_end size end (c ∷ bytes) =
    let rest = find_end size (end + 1) bytes in
    if c == space then some end else if end == size then some end else rest

unfoldable pub cut_param : View → Option ℕ → Option ParamResult
cut_param v none = some (record { param = null_view; remainder = null_view })
cut_param v (some start) = find_end v.size start (drop start v.bytes) >>=? λ end.
    some
      (record { param = sub_view v start (end - start); remainder = sub_view v end (v.size - end) })

unfoldable pub find_next_param : View → Option ParamResult
find_next_param v = skip_spaces v.size 0 v.bytes >>=? cut_param v

unfoldable pub is_alpha : ℕ → Bool
is_alpha c = (leb b'a' c && leb c b'z') || (leb b'A' c && leb c b'Z')

-- The loop of `getCommand`.
unfoldable pub command_end : (size last : ℕ) → List ℕ → Option ℕ
command_end size last [] = none
command_end size last (c ∷ bytes) =
    let rest = command_end size (last + 1) bytes in
    if is_alpha c && ltb last size then rest else some last

unfoldable pub get_command : View → Option View
get_command line = command_end line.size 0 line.bytes >>=? λ n. some (view line.bytes n)
