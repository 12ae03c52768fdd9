-- ===== src/Shell/Commands/Refused.antt =====
-- What `cmdWriteCodecRegister` of src/commands.cpp does with a value that is no number.
use tiny_os64v.Base.{[], none, some, false, ◌≡◌, ◌≢◌, refl, sym, ap, ◌∙◌, arith, inl, inr}
use tiny_os64v.Print.Format.Render.{render}
use tiny_os64v.Shell.View.{View, text}
use tiny_os64v.Shell.View.Words.{IsTerminated, word, trim, find_next_param-IsParam}
use tiny_os64v.Shell.Value.{value_from_str}
use tiny_os64v.Shell.Session.{Session, pure, need, ◌>>=◌, ◌>>◌}
use tiny_os64v.Shell.Commands.{write_codec_register, cmd_write_codec_register}
use tiny_os64v.Shell.Commands.Params.{said, say_fits, after_first, next_value-IsParsed}

-- On parameters with a zero behind them, of which some text follows the first word and the second
-- word is no number, `write` fails without a fault: it prints that the value is invalid, and does
-- nothing else, so that no register is written.
pub cmd_write_codec_register_refused :
    (params : View) (s : Session)
    → IsTerminated params
    → after_first (text params) ≢ []
    → value_from_str (word (trim (after_first (text params)))) ≡ none
    → cmd_write_codec_register params s ≡ some (false, said "Invalid value\n\r" [] s)
unfolding cmd_write_codec_register write_codec_register need pure ◌>>=◌ ◌>>◌ render
cmd_write_codec_register_refused params s terminated more refused =
    let name = find_next_param-IsParam params terminated in
    let ended : IsTerminated name.result.remainder = elim name.next [
      | inl ended ↦ ended
      | inr null ↦ absurd (more (sym name.remainder ∙ ap text null.1))
    ] in
    let value = next_value-IsParsed name.result.remainder ended in
    let invalid : value.param ≡ none =
      value.spelled ∙ ap (λ t. value_from_str (word (trim t))) name.remainder ∙ refused in
    rw
      (name.returns, value.returns, invalid, say_fits "Invalid value\n\r" [] s _ refl (omega arith))
      refl
