-- ===== src/Shell/Console.antt =====
-- The console of src/main.cpp: `waitForKey`, `readKey`, and the loop that edits a line and executes
-- it. The loop stands under `#if 0`; it is the one caller of `Commands::execute`.
pub mod Edit
pub mod Line
pub mod Refines
pub mod Table
use tiny_os64v.Base.{
  ℕ, zero, suc, ◌-◌, ◌+◌, List, [], ◌∷◌, Option, none, some, Bool, true, false, ◌&&◌, if◌then◌else◌,
  ltb, leb, ◌==◌, u16, ◌>>=?◌,
}
use tiny_os64v.Memory.{store_byte}
use tiny_os64v.Hda.World.{Platform}
use tiny_os64v.Firmware.Call.{Call}
use tiny_os64v.Firmware.{Firmware}
use tiny_os64v.Shell.View.{View, view}
use tiny_os64v.Shell.Session.{Session, C, pure, need, ask, ◌>>=◌, ◌>>◌, say}
use tiny_os64v.Shell.Commands.Execute.{execute}

-- `consoleBuffer` and `consoleBufferIdx`.
pub record Console : Type 0 where
  pub buffer : List ℕ
  pub index : ℕ

abbrev pub enter_key : ℕ
enter_key = 13

abbrev pub backspace : ℕ
backspace = 8

abbrev pub capacity : ℕ
capacity = 256

abbrev pub is_printable : ℕ → Bool
is_printable key = ltb key 256 && leb 32 key

unfoldable pub append_key : Console → ℕ → Option Console
append_key c key =
    store_byte c.buffer c.index key >>=? λ b. some (record { buffer = b; index = c.index + 1 })

abbrev pub remove_key : Console → Console
remove_key c = elim c.index [ zero ↦ c | suc n ↦ record c { index = n } ]

-- What a key other than Enter does to the line.
unfoldable pub edit_line : Console → ℕ → Option Console
edit_line c key =
    if ltb c.index (capacity - 1)
    then if is_printable key
      then append_key c key
      else if key == backspace
      then some (remove_key c)
      else some c
    else some c

-- The text of the key's character: none for the character 0.
abbrev pub key_text : ℕ → List ℕ
key_text key = if key == 0 then [] else key ∷ []

unfoldable pub echo : ℕ → C (Unit {0})
echo key = ask (Call.output (key_text key)) (λ log. tt)

abbrev character : Option ℕ → Option ℕ
character none = none
character (some key) = some (u16 key)

unfoldable pub report : Bool → C (Unit {0})
report true = pure tt
report false = do say "Command error\n\r" []; pure tt

module _ (f : Firmware) where
  unfoldable pub wait_for_key : C Bool
  wait_for_key = ask Call.wait_key f.waits

  unfoldable pub read_key : C (Option ℕ)
  read_key = ask Call.read_key (λ log. character (f.key log))

  -- The key of a round, or `none` if the firmware reports none.
  unfoldable pub get_key : C (Option ℕ)
  get_key = do ready ← wait_for_key; if ready then read_key else pure none

module _ (p : Platform) (f : Firmware) (fuel : ℕ) where
  -- What Enter does with the line that it ends.
  unfoldable pub run_line : View → C (Unit {0})
  run_line line = do ok ← execute p f fuel line; report ok; say ">" []; pure tt

  unfoldable pub enter : Console → C Console
  enter c = do
    say "\n\r" []
    b ← need (store_byte c.buffer c.index 0)
    run_line (view b c.index)
    pure (record { buffer = b; index = 0 })

  unfoldable pub type_key : Console → ℕ → C Console
  type_key c key = do echo key; need (edit_line c key)

  unfoldable pub press : Console → Option ℕ → C Console
  press c none = pure c
  press c (some key) = if key == enter_key then enter c else type_key c key

  -- `rounds` rounds of the loop.
  unfoldable pub console_loop : (rounds : ℕ) → Console → C Console
  console_loop zero c = pure c
  console_loop (suc rounds) c = do key ← get_key f; c' ← press c key; console_loop rounds c'
