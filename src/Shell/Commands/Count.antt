-- ===== src/Shell/Commands/Count.antt =====
-- `cmdTest` of src/commands.cpp, which prints the words of its parameters and counts them.
pub mod Pieces
pub mod Counted
use tiny_os64v.Base.{
  ℕ, zero, suc, ◌+◌, ◌^◌, List, [], ◌∷◌, Option, none, some, Bool, true, false, ltb, if◌then◌else◌,
  u64,
}
use tiny_os64v.Print.Format.{word}
use tiny_os64v.Shell.View.{View, ParamResult, find_next_param}
use tiny_os64v.Shell.Session.{C, pure, need, ◌>>=◌, ◌>>◌, say}

-- A `char` as the `int` that is passed in its place, given as a bit pattern of 32 bits.
abbrev pub promoted : ℕ → ℕ
promoted c = if ltb c 128 then c else c + 0xFFFFFF00

-- The loop over the characters, `left` of them, on the memory from the first of them.
unfoldable pub print_chars : (left : ℕ) → List ℕ → C (Unit {0})
print_chars zero bytes = pure tt
print_chars (suc left) [] = need none
print_chars (suc left) (c ∷ bytes) = do say "%c" (word (promoted c) ∷ []); print_chars left bytes

unfoldable pub print_param : View → C (Unit {0})
print_param param = do say "'" []; print_chars param.size param.bytes; say "' " []; pure tt

-- The loop over the parameters, from a result of `findNextParam`: the count, or `none` if the fuel ran out.
unfoldable pub test_loop : (fuel count : ℕ) → ParamResult → C (Option ℕ)
test_loop zero count r = pure none
test_loop (suc fuel) count r =
    if ltb 0 r.param.size
    then (do
      print_param r.param
      next ← need (find_next_param r.remainder)
      test_loop fuel (u64 (count + 1)) next)
    else pure (some count)

unfoldable pub report_count : Option ℕ → C Bool
report_count none = pure false
report_count (some count) = do say "\n\r  param count = %d\n\r" (word count ∷ []); pure true

-- `false` means that the fuel ran out.
unfoldable pub cmd_test : (fuel : ℕ) → View → C Bool
cmd_test fuel params = do
  say "TEST! " []
  first ← need (find_next_param params)
  count ← test_loop fuel 0 first
  report_count count
