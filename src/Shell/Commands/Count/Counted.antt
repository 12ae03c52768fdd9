-- ===== src/Shell/Commands/Count/Counted.antt =====
-- What `cmdTest` of src/commands.cpp prints, and that its loop ends.
use tiny_os64v.Base.{
  ℕ, zero, suc, ◌+◌, ◌<◌, ◌^◌, List, [], ◌∷◌, ◌++◌, Option, some, true, codes, ltb, length,
  length-append, u32, u64, take, ◌≡◌, refl, sym, ap, ◌∙◌, arith, inl, inr,
}
use tiny_os64v.Print.Format.{c_string, wide}
use tiny_os64v.Print.Format as Format
use tiny_os64v.Print.Format.Render.{render, directive_text, dec_text}
use tiny_os64v.Shell.View.{View, text, ParamResult, find_next_param}
use tiny_os64v.Shell.View.Words.{
  IsTerminated, IsParam, word, trim, after_word, find_next_param-IsParam,
}
use tiny_os64v.Shell.Session.{Session, pure, need, ◌>>=◌, ◌>>◌}
use tiny_os64v.Shell.Commands.Params.{said, say_fits, length-dec_text}
use tiny_os64v.Shell.Commands.Count.{
  promoted, print_chars, print_param, test_loop, report_count, cmd_test,
}
use tiny_os64v.Shell.Commands.Count.Pieces.{IsSplit, words, words-IsSplit}

-- The sessions behind a text that is printed one character at a time, a word in quotes, and words.
abbrev pub chars_said : List ℕ → Session → Session
chars_said [] s = s
chars_said (c ∷ t) s = chars_said t (said "%c" (Format.word (promoted c) ∷ []) s)

abbrev pub word_said : List ℕ → Session → Session
word_said p s = said "' " [] (chars_said p (said "'" [] s))

abbrev pub words_said : List (List ℕ) → Session → Session
words_said [] s = s
words_said (p ∷ ps) s = words_said ps (word_said p s)

print_chars_lem :
    (left : ℕ) (b : List ℕ) (s : Session)
    → length (take left b) ≡ left
    → print_chars left b s ≡ some (tt, chars_said (take left b) s)
unfolding print_chars pure need ◌>>=◌ ◌>>◌ render directive_text
print_chars_lem zero b s whole = refl
print_chars_lem (suc left) [] s whole = absurd (omega arith)
print_chars_lem (suc left) (c ∷ b) s whole =
    rw (say_fits "%c" (Format.word (promoted c) ∷ []) s _ refl (omega arith))
      (print_chars_lem left b _ (omega arith))

print_param_lem :
    (param : View) (s : Session)
    → length (text param) ≡ param.size
    → print_param param s ≡ some (tt, word_said (text param) s)
unfolding print_param pure ◌>>=◌ ◌>>◌ render
print_param_lem param s whole =
    rw
      (
        say_fits "'" [] s _ refl (omega arith),
        print_chars_lem param.size param.bytes (said "'" [] s) whole,
        say_fits "' " [] (chars_said (text param) (said "'" [] s)) _ refl (omega arith),
      )
      refl

-- What is left behind a word has its zero.
rest-IsTerminated :
    (v : View) (x : Option ParamResult) (c : ℕ) (p : List ℕ)
    → (k : IsParam v x) → word (trim (text v)) ≡ c ∷ p
    → IsTerminated k.result.remainder
rest-IsTerminated v x c p k e = elim k.next [
  | inl ended ↦ ended
  | inr null ↦ absurd (ground (arith, e, ap word null.0))
]

-- The loop from a result on counts and prints the words of the text that the result was taken from.
Counts : (fuel count : ℕ) (t : List ℕ) (r : ParamResult) (s : Session) → Type 0
Counts fuel count t r s =
    test_loop fuel count r s ≡ some (some (count + length (words t)), words_said (words t) s)

module _ (fuel count : ℕ) (v : View) (x : Option ParamResult) (k : IsParam v x) (s : Session) where
  no_word-Counts :
      trim (text v) ≡ [] → words (text v) ≡ [] → Counts (suc fuel) count (text v) k.result s
  unfolding test_loop pure Counts
  no_word-Counts blank none_left =
      let nothing : k.result.param.size ≡ 0 = sym k.whole ∙ ap length (k.param ∙ ap word blank) in
      rw (nothing, none_left) (ap (λ n. some (some n, s)) {x = count} {y = count + 0} (omega arith))

  a_word-Counts :
      (c : ℕ) (p : List ℕ)
      → word (trim (text v)) ≡ c ∷ p
      → words (text v) ≡ (c ∷ p) ∷ words (after_word (trim (text v)))
      → count + 1 < 2 ^ 64
      → (next : IsParam k.result.remainder (find_next_param k.result.remainder))
      → Counts fuel (count + 1) (text k.result.remainder) next.result (word_said (c ∷ p) s)
      → Counts (suc fuel) count (text v) k.result s
  unfolding test_loop pure need ◌>>=◌ ◌>>◌ Counts
  a_word-Counts c p e splits small next ih =
      let size : k.result.param.size ≡ suc (length p) = sym k.whole ∙ ap length (k.param ∙ e) in
      let filled : ltb 0 k.result.param.size ≡ true = ground (arith, size) in
      let sum : u64 (count + 1) ≡ count + 1 = omega (arith, small) in
      rw
        (
          filled,
          print_param_lem k.result.param s k.whole,
          next.returns,
          sum,
          splits,
          sym k.remainder,
          k.param ∙ e,
        )
        (ih
          ∙ ap
              (λ n.
                some (some n, words_said (words (text k.result.remainder)) (word_said (c ∷ p) s)))
              {x = count + 1 + length (words (text k.result.remainder))} (omega arith))

test_loop-Counts :
    (fuel count : ℕ) (v : View) (x : Option ParamResult) (k : IsParam v x) (s : Session)
    → length (text v) < fuel
    → count + length (text v) < 2 ^ 64
    → Counts fuel count (text v) k.result s
test_loop-Counts zero count v x k s enough small = absurd (omega arith)
test_loop-Counts (suc fuel) count v x k s enough small = elim (words-IsSplit (text v)) [
  | IsSplit.empty blank none_left ↦ no_word-Counts fuel count v x k s blank none_left
  | IsSplit.first c p e splits short ↦
      let next = find_next_param-IsParam k.result.remainder (rest-IsTerminated v x c p k e) in
      let shorter : length (text k.result.remainder) < length (text v) = rw k.remainder short in
      a_word-Counts fuel count v x k s c p e splits (omega arith) next
        (test_loop-Counts fuel (count + 1) k.result.remainder _ next _ (omega arith) (omega arith))
]

total : ℕ → List ℕ
total n = codes "\n\r  param count = " ++ (dec_text (u32 n) ++ codes "\n\r")

length-total : (n : ℕ) → length (total n) < 256
unfolding total
length-total n =
    omega (
      arith,
      length-append (dec_text (u32 n)) (codes "\n\r"),
      length-dec_text (u32 n) (omega arith),
    )

report_count_lem :
    (n : ℕ) (s : Session)
    → report_count (some n) s
      ≡ some (true, said "\n\r  param count = %d\n\r" (Format.word n ∷ []) s)
unfolding report_count pure ◌>>◌ render directive_text total
report_count_lem n s =
    rw
      (say_fits "\n\r  param count = %d\n\r" (Format.word n ∷ []) s (total n) refl (length-total n))
      refl

-- On parameters with a zero behind them, `cmdTest` reads no memory outside them and returns true, as
-- soon as the fuel exceeds the number of their characters. It prints each of their words, in
-- order, one character at a time in quotes, and in the end how many words there are.
pub cmd_test_lem :
    (fuel : ℕ) (params : View) (s : Session)
    → IsTerminated params
    → length (text params) < fuel
    → length (text params) < 2 ^ 64
    → cmd_test fuel params s
      ≡ some (
        true,
        said "\n\r  param count = %d\n\r"
            (Format.word (length (words (text params))) ∷ [])
            (words_said (words (text params)) (said "TEST! " [] s)),
      )
unfolding cmd_test need ◌>>=◌ ◌>>◌ render Counts
cmd_test_lem fuel params s terminated enough small =
    let first = find_next_param-IsParam params terminated in
    let begun = said "TEST! " [] s in
    let counted = words_said (words (text params)) begun in
    let counts : test_loop fuel 0 first.result begun
        ≡ some (some (length (words (text params))), counted) =
      test_loop-Counts fuel 0 params _ first begun enough (omega arith)
      ∙ ap (λ n. some (some n, counted)) {x = 0 + length (words (text params))} (omega arith) in
    rw
      (
        say_fits "TEST! " [] s _ refl (omega arith),
        first.returns,
        counts,
        report_count_lem (length (words (text params))) counted,
      )
      refl
