-- ===== src/Examples/Console.antt =====
-- The theorems on the command line at concrete inputs.
use tiny_os64v.Base.{Decides, ◌∷◌, ◌++◌, [], some, codes, ◌≡◌, ◌↔◌, arith, All, u64}
use tiny_os64v.Print.Hex.{hex_text}
use tiny_os64v.Print.Decimal.Digits.{udec_text, IsDigitChar, spelled}
use tiny_os64v.Helpers.{strncmp_views}
use tiny_os64v.Helpers.Views.{strncmp_views-Decides}
use tiny_os64v.Shell.Value.{value_from_str, value_from_dec_str}
use tiny_os64v.Shell.Value.RoundTrip.{
  value_from_dec_str_iff, value_from_str-udec_text, value_from_str-hex_text,
}
use tiny_os64v.Shell.View.{View, view}

abbrev line : View
line = view (codes "write icw $10" ++ 0 ∷ []) 13

value_from_dec_str_iff_example :
    (value_from_dec_str (codes "42") ≡ some 42)
    ↔ (All IsDigitChar (codes "42") × (42 ≡ u64 (spelled 0 (codes "42"))))
value_from_dec_str_iff_example = value_from_dec_str_iff (codes "42") 42

value_from_str-udec_text_example : value_from_str (udec_text 1024) ≡ some 1024
value_from_str-udec_text_example = value_from_str-udec_text 1024 (omega arith)

value_from_str-hex_text_example : value_from_str (b'$' ∷ hex_text 4 0xBEEF) ≡ some 0xBEEF
value_from_str-hex_text_example = value_from_str-hex_text 4 0xBEEF (omega arith) (omega arith)

strncmp_views-Decides_example :
    Decides (codes "read" ≡ codes "real!") (strncmp_views (codes "read") (codes "real!"))
strncmp_views-Decides_example = strncmp_views-Decides (codes "read") (codes "real!")
