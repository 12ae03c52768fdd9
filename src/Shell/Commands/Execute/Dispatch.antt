-- ===== src/Shell/Commands/Execute/Dispatch.antt =====
-- Which function `Commands::execute` calls, and with what.
use tiny_os64v.Base.{
  ℕ, zero, suc, ◌-◌, List, [], ◌∷◌, Option, none, some, Bool, true, false, if◌then◌else◌, codes,
  ◌≡◌, ◌≢◌, refl, ap, sym, subst, ◌∙◌, arith, All, get_elem?, Bool-cases, inl, inr,
}
use tiny_os64v.Hda.World.{Platform}
use tiny_os64v.Firmware.{Firmware}
use tiny_os64v.Shell.View.{View, text, sub_view, get_command}
use tiny_os64v.Shell.View.Words.{IsTerminated}
use tiny_os64v.Shell.View.Command.{letters, after_letters, IsCommand, get_command-IsCommand}
use tiny_os64v.Shell.Session.{Session, C, pure, need, ◌>>=◌}
use tiny_os64v.Shell.Commands.Execute.{
  Function, CommandDef, commands, same_text, run, execute_loop, execute,
}

same_text_refl : (s : List ℕ) → same_text s s ≡ true
unfolding same_text
same_text_refl [] = refl
same_text_refl (c ∷ s) = ground (arith, same_text_refl s)

same_text_eq : (s t : List ℕ) → same_text s t ≡ true → s ≡ t
unfolding same_text
same_text_eq [] [] h = refl
same_text_eq [] (d ∷ t) h = cc
same_text_eq (c ∷ s) [] h = cc
same_text_eq (c ∷ s) (d ∷ t) h = ground (arith, same_text_eq s t)

-- The function of the first entry with a name.
unfoldable find_function : List CommandDef → List ℕ → Option Function
find_function [] name = none
find_function (c ∷ cs) name =
    let rest = find_function cs name in if same_text (codes c.name) name then some c.func else rest

own_name : All (λ d. find_function commands (codes d.name) ≡ some d.func) commands
unfolding find_function commands same_text
own_name = ground arith

All-at :
    (P : CommandDef → Type 0) (i : ℕ) (ds : List CommandDef) (d : CommandDef)
    → All P ds
    → get_elem? ds i ≡ some d
    → P d
All-at P zero [] d h e = cc
All-at P (suc i) [] d h e = cc
All-at P zero (x ∷ ds) d h e = subst P (ground arith) h.0
All-at P (suc i) (x ∷ ds) d h e = All-at P i ds d h.1 e

other_names :
    (ds : List CommandDef) (name : List ℕ)
    → All (λ d. name ≢ codes d.name) ds
    → find_function ds name ≡ none
unfolding find_function
other_names [] name h = refl
other_names (d ∷ ds) name h = elim (Bool-cases (same_text (codes d.name) name)) [
  | inl same ↦ absurd (h.0 (sym (same_text_eq (codes d.name) name same)))
  | inr other ↦ rw other (other_names ds name h.1)
]

module _ (p : Platform) (f : Firmware) (fuel : ℕ) where
  abbrev call : Option Function → View → C Bool
  call none params = pure false
  call (some func) params = run p f fuel func params

  execute_loop_lem :
      (ds : List CommandDef) (line cmd : View) (s : Session)
      → execute_loop p f fuel ds line cmd s
        ≡ call (find_function ds (text cmd)) (sub_view line cmd.size (line.size - cmd.size)) s
  unfolding execute_loop find_function
  execute_loop_lem [] line cmd s = refl
  execute_loop_lem (d ∷ ds) line cmd s = elim (Bool-cases (same_text (codes d.name) (text cmd))) [
    | inl same ↦ rw same refl
    | inr other ↦ rw other (execute_loop_lem ds line cmd s)
  ]

  execute_lem :
      (line : View) (s : Session) (c : IsCommand line (get_command line))
      → execute p f fuel line s
        ≡ call
            (find_function commands (letters (text line)))
            (sub_view line c.command.size (line.size - c.command.size))
            s
  unfolding execute need ◌>>=◌
  execute_lem line s c = rw c.returns (
      execute_loop_lem commands line c.command s
      ∙ ap
          (λ t.
            call (find_function commands t)
              (sub_view line c.command.size (line.size - c.command.size)) s)
          c.letters_of)

  -- A line with a zero behind it that begins with the letters of a command's name, and with no more
  -- letters, runs the function of that command, on a view of the rest of the line, with its zero
  -- behind it.
  pub execute_runs :
      (line : View) (s : Session) (i : ℕ) (d : CommandDef)
      → IsTerminated line
      → get_elem? commands i ≡ some d
      → letters (text line) ≡ codes d.name
      → (params : View) × (text params ≡ after_letters (text line))
        × IsTerminated params
        × (execute p f fuel line s ≡ run p f fuel d.func params s)
  execute_runs line s i d terminated entry named =
      let c = get_command-IsCommand line terminated in
      (
        sub_view line c.command.size (line.size - c.command.size),
        c.rest,
        c.terminated,
        execute_lem line s c
            ∙ ap (λ r. call r (sub_view line c.command.size (line.size - c.command.size)) s)
                (ap (find_function commands) named ∙ All-at _ i commands d own_name entry),
      )

  -- A line with a zero behind it whose first letters are no command's name is refused, and neither
  -- the device nor the console nor the codec object is touched.
  pub execute_unknown :
      (line : View) (s : Session)
      → IsTerminated line
      → All (λ d. letters (text line) ≢ codes d.name) commands
      → execute p f fuel line s ≡ some (false, s)
  unfolding pure
  execute_unknown line s terminated other =
      let c = get_command-IsCommand line terminated in
      execute_lem line s c
      ∙ ap (λ r. call r (sub_view line c.command.size (line.size - c.command.size)) s)
          (other_names commands (letters (text line)) other)
