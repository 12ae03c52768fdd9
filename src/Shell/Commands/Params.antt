-- ===== src/Shell/Commands/Params.antt =====
-- The parameters of a command and what it prints, as texts.
use tiny_os64v.Base.{
  ℕ, ◌<◌, ◌≤◌, ◌^◌, ◌-◌, List, [], Option, some, false, String, ltb, length, length-replicate,
  replicate, ◌≡◌, ◌≢◌, refl, sym, ap, ◌∙◌, arith, inl, inr, Bool-cases,
}
use tiny_os64v.Print.Format.{Arg, c_string}
use tiny_os64v.Print.Format.Render.{render, dec_text}
use tiny_os64v.Print.Format.Bounds.{print_whole}
use tiny_os64v.Print.Decimal.Digits.{udec_text, udec_text-IsDecimal}
use tiny_os64v.Hda.World.{Event, record_event}
use tiny_os64v.Hda.Amps.{value_or_0}
use tiny_os64v.Shell.View.{View, text}
use tiny_os64v.Shell.View.Words.{IsTerminated, word, trim, after_word, find_next_param-IsParam}
use tiny_os64v.Shell.Value.{value_from_str}
use tiny_os64v.Shell.Session.{Session, say}
use tiny_os64v.Shell.Commands.{next_value}

-- The session behind a call of `print`.
abbrev pub said : String → List Arg → Session → Session
said fmt args s = record s { world = record_event (Event.say fmt args) s.world }

pub say_fits :
    (fmt : String) (args : List Arg) (s : Session) (t : List ℕ)
    → render false (c_string fmt) args ≡ some t
    → length t < 256
    → say fmt args s ≡ some (length t, said fmt args s)
unfolding say
say_fits fmt args s t e short =
    let (array, returns, _, _) =
      print_whole (replicate 256 0) (c_string fmt) args t (length-replicate {A = ℕ} 256 0) e
        short in
    rw returns refl

length-udec_text : (v : ℕ) → v < 2 ^ 32 → length (udec_text v) ≤ 10
length-udec_text v h = omega (arith, (udec_text-IsDecimal v h).short)

not_less : (a b : ℕ) → ltb a b ≡ false → b ≤ a
not_less a b h = ground (arith, h)

pub length-dec_text : (v : ℕ) → v < 2 ^ 32 → length (dec_text v) ≤ 11
length-dec_text v h = elim (Bool-cases (ltb v (2 ^ 31))) [
  | inl small ↦ rw small (omega (arith, length-udec_text v h))
  | inr large ↦
      rw large
        (omega (arith, length-udec_text (2 ^ 32 - v) (omega (arith, not_less v (2 ^ 31) large))))
]

-- The first word of a text as a number, 0 if it is none, and what follows the word.
abbrev pub first_number : List ℕ → ℕ
first_number t = value_or_0 (value_from_str (word (trim t)))

abbrev pub after_first : List ℕ → List ℕ
after_first t = after_word (trim t)

-- What `next_value` returns on a text.
pub record IsParsed (v : View) : Type 0 where
  pub param : Option ℕ
  pub rest : View
  pub returns : next_value v ≡ some (param, rest)
  pub spelled : param ≡ value_from_str (word (trim (text v)))
  pub number : value_or_0 param ≡ first_number (text v)
  pub remainder : text rest ≡ after_first (text v)
  pub next : after_first (text v) ≢ [] → IsTerminated rest

pub next_value-IsParsed : (v : View) → IsTerminated v → IsParsed v
unfolding next_value
next_value-IsParsed v terminated =
    let r = find_next_param-IsParam v terminated in
    record {
      param = value_from_str (text r.result.param);
      rest = r.result.remainder;
      returns = rw r.returns refl;
      spelled = ap value_from_str r.param;
      number = ap (λ t. value_or_0 (value_from_str t)) r.param;
      remainder = r.remainder;
      next = λ more. elim r.next [
        | inl ended ↦ ended
        | inr null ↦ absurd (more (sym r.remainder ∙ ap text null.1))
      ];
    }
