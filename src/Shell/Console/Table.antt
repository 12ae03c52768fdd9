-- ===== src/Shell/Console/Table.antt =====
-- The table of widgets through the console's loop.
use tiny_os64v.Base.{ℕ, zero, suc, Option, none, some, Bool, true, false, ◌≡◌}
use tiny_os64v.Hda.Types.{Codec}
use tiny_os64v.Hda.World.{Platform}
use tiny_os64v.Firmware.{Firmware}
use tiny_os64v.Shell.View.{View}
use tiny_os64v.Shell.Session.{Session}
use tiny_os64v.Shell.Session.Keeps.{Keeps, bind-Keeps}
use tiny_os64v.Shell.Commands.Keeps.{keeps}
use tiny_os64v.Shell.Commands.Execute.Table.{HasTable, execute-Keeps, Ends-some}
use tiny_os64v.Shell.Console.{
  Console, echo, report, wait_for_key, read_key, get_key, run_line, enter, type_key, press,
  console_loop,
}

echo-Keeps : (P : Codec → Type 0) (key : ℕ) → Keeps P (echo key)
unfolding echo
echo-Keeps P key = search (keeps)

report-Keeps : (P : Codec → Type 0) (ok : Bool) → Keeps P (report ok)
unfolding report
report-Keeps P true = search (keeps)
report-Keeps P false = search (keeps)

get_key-Keeps : (P : Codec → Type 0) (f : Firmware) → Keeps P (get_key f)
unfolding get_key wait_for_key read_key
get_key-Keeps P f = search (keeps) depth 12

module _ (p : Platform) (f : Firmware) (fuel : ℕ) where
  run_line-Keeps : (line : View) → Keeps HasTable (run_line p f fuel line)
  unfolding run_line
  run_line-Keeps line = search (keeps, report-Keeps, execute-Keeps) depth 12

  press-Keeps : (c : Console) (key : Option ℕ) → Keeps HasTable (press p f fuel c key)
  unfolding press enter type_key
  press-Keeps c none = search (keeps)
  press-Keeps c (some key) = search (keeps, run_line-Keeps, echo-Keeps) depth 20 fits 4000

  loop-Keeps : (n : ℕ) (c : Console) → Keeps HasTable (console_loop p f fuel n c)
  unfolding console_loop
  loop-Keeps zero c = search (keeps)
  loop-Keeps (suc n) c =
      bind-Keeps HasTable _ _ (get_key-Keeps HasTable f)
        (λ key. bind-Keeps HasTable _ _ (press-Keeps c key) (loop-Keeps n))

  -- Whatever is typed, a table of 64 widgets, each well formed for its place or as the default one
  -- is, stays so through any number of rounds of the console's loop.
  pub console_loop-HasTable :
      (n : ℕ) (c c' : Console) (s s' : Session)
      → HasTable s.codec
      → console_loop p f fuel n c s ≡ some (c', s')
      → HasTable s'.codec
  console_loop-HasTable n c c' s s' h e = Ends-some _ c' s' ((loop-Keeps n c).keeps s h) e
