-- ===== src/Shell/Console/Edit.antt =====
-- What the console promises: a line editor on texts, and what Enter does with a line.
use tiny_os64v.Base.{
  ℕ, suc, ◌-◌, List, [], ◌∷◌, ◌++◌, Option, none, some, if◌then◌else◌, ltb, ◌==◌, length, ◌≡◌, ◌≢◌,
}
use tiny_os64v.Hda.World.{Platform}
use tiny_os64v.Firmware.{Firmware}
use tiny_os64v.Shell.View.{View, text}
use tiny_os64v.Shell.View.Words.{IsTerminated}
use tiny_os64v.Shell.Session.{Session, ◌>>◌, say}
use tiny_os64v.Shell.Console.{enter_key, backspace, capacity, is_printable, echo, get_key, run_line}

abbrev pub all_but_last : List ℕ → List ℕ
all_but_last [] = []
all_but_last (c ∷ []) = []
all_but_last (c ∷ d ∷ t) = c ∷ all_but_last (d ∷ t)

-- A line of 255 characters takes no key.
abbrev pub edit : List ℕ → ℕ → List ℕ
edit line key =
    if ltb (length line) (capacity - 1)
    then if is_printable key
      then line ++ key ∷ []
      else if key == backspace
      then all_but_last line
      else line
    else line

-- The outcome of rounds: the line and the session, or `none` for a fault.
abbrev pub Outcome : Type 0
Outcome = Option (List ℕ × Session)

-- `Runs n line s r`: `n` rounds from line `line` and session `s` end in `r`. Rounds end in a fault
-- only where the command that Enter runs has one.
pub data Runs (p : Platform) (f : Firmware) (fuel : ℕ)
    : ℕ → List ℕ → Session → Outcome → Type 0 where
  ended : (line : List ℕ) (s : Session) → Runs p f fuel 0 line s (some (line, s))
  no_key :
      (n : ℕ) (line : List ℕ) (s s' : Session) (r : Outcome)
      → get_key f s ≡ some (none, s')
      → Runs p f fuel n line s' r
      → Runs p f fuel (suc n) line s r
  typed :
      (n key : ℕ) (line : List ℕ) (s s' s'' : Session) (r : Outcome)
      → get_key f s ≡ some (some key, s')
      → key ≢ enter_key
      → echo key s' ≡ some (tt, s'')
      → Runs p f fuel n (edit line key) s'' r
      → Runs p f fuel (suc n) line s r
  entered :
      (n : ℕ) (line : List ℕ) (v : View) (s s' s'' : Session) (r : Outcome)
      → get_key f s ≡ some (some enter_key, s')
      → text v ≡ line
      → IsTerminated v
      → (say "\n\r" [] >> run_line p f fuel v) s' ≡ some (tt, s'')
      → Runs p f fuel n [] s'' r
      → Runs p f fuel (suc n) line s r
  faulted :
      (n : ℕ) (line : List ℕ) (v : View) (s s' : Session)
      → get_key f s ≡ some (some enter_key, s')
      → text v ≡ line
      → IsTerminated v
      → (say "\n\r" [] >> run_line p f fuel v) s' ≡ none
      → Runs p f fuel (suc n) line s none
