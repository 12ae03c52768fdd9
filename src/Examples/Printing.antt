-- ===== src/Examples/Printing.antt =====
-- The theorems on the printing at concrete inputs.
use tiny_os64v.Base.{
  ℕ, List, [], ◌∷◌, ◌++◌, ◌>>=?◌, none, some, false, codes, replicate, take, get_elem?, ◌≡◌, refl,
  arith,
}
use tiny_os64v.Print.Output.{limited_string, put_all}
use tiny_os64v.Print.Decimal.{doubled, shift_digits, dec_rounds, to_udec}
use tiny_os64v.Print.Decimal.Digits.{udec_text, PutsDecimal, to_udec-PutsDecimal}
use tiny_os64v.Print.Format.{word, c_string, format, snprintf, print}
use tiny_os64v.Print.Format.Render.{render, directive_text, string_text, format-put_all}
use tiny_os64v.Print.Format.Bounds.{IsPrinted, snprintf-IsPrinted, print_whole, print_overflow}

abbrev wide_array : List ℕ
wide_array = replicate 256 0

abbrev greeting : List ℕ
greeting = c_string "n=%u"

greeting_renders : render false greeting (word 7 ∷ []) ≡ some (codes "n=7")
unfolding render directive_text string_text udec_text dec_rounds shift_digits doubled
greeting_renders = refl

-- A format of 300 letters.
abbrev long_format : List ℕ
long_format = replicate 300 b'a' ++ 0 ∷ []

long_renders : render false long_format [] ≡ some (replicate 300 b'a')
unfolding render
long_renders = refl

print_overflow_example : print wide_array long_format [] ≡ none
print_overflow_example =
    print_overflow wide_array long_format [] (replicate 300 b'a') refl long_renders (omega arith)

snprintf-IsPrinted_example :
    IsPrinted (replicate 4 0) 3 (codes "n=7") (snprintf (replicate 4 0) 3 greeting (word 7 ∷ []))
snprintf-IsPrinted_example =
    snprintf-IsPrinted (replicate 4 0) 3 greeting (word 7 ∷ []) (codes "n=7") (omega arith)
      (omega arith) (omega arith) greeting_renders

print_whole_example :
    (array : List ℕ) × (print wide_array greeting (word 7 ∷ []) ≡ some (array, 3))
    × (take 3 array ≡ codes "n=7")
    × (get_elem? array 3 ≡ some 0)
print_whole_example =
    print_whole wide_array greeting (word 7 ∷ []) (codes "n=7") refl greeting_renders (omega arith)

format-put_all_example :
    format (limited_string wide_array 256) greeting (word 7 ∷ [])
    ≡ (render false greeting (word 7 ∷ []) >>=? λ t. put_all (limited_string wide_array 256) t)
format-put_all_example = format-put_all (limited_string wide_array 256) greeting (word 7 ∷ [])

to_udec-PutsDecimal_example :
    PutsDecimal (limited_string wide_array 256) 4096 (to_udec (limited_string wide_array 256) 4096)
to_udec-PutsDecimal_example = to_udec-PutsDecimal (limited_string wide_array 256) 4096 (omega arith)
