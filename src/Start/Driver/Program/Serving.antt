-- ===== src/Start/Driver/Program/Serving.antt =====
-- What the program does from the constructor of the driver on.
use tiny_os64v.Base.{
  ℕ, ◌<◌, ◌*◌, List, [], length, Option, none, some, Bool, true, ◌>>=?◌, ◌≡◌, refl, sym, ap, ◌∙◌,
  subst, arith,
}
use tiny_os64v.Print.Format.Render.{render}
use tiny_os64v.Hda.Types.{Widget}
use tiny_os64v.Hda.World.{Event, Platform}
use tiny_os64v.Hda.Reset.{new_codec}
use tiny_os64v.Hda.Reset.Streams.{IsReset, waited, has_left, begun}
use tiny_os64v.Hda.Stream.Writes.{IsPlaying}
use tiny_os64v.Firmware.{Firmware}
use tiny_os64v.Shell.Session.{Session, pure, drive, ◌>>=◌, ◌>>◌}
use tiny_os64v.Shell.Session.Succeeds.{session}
use tiny_os64v.Shell.Commands.Params.{said, say_fits}
use tiny_os64v.Shell.Commands.Execute.Table.{IsTable, HasTable, new_codec-HasTable}
use tiny_os64v.Shell.Console.{Console, console_loop}
use tiny_os64v.Shell.Console.Edit.{Outcome, Runs}
use tiny_os64v.Shell.Console.Line.{Refines}
use tiny_os64v.Shell.Console.Refines.{Agrees, console_loop-Refines}
use tiny_os64v.Shell.Console.Table.{console_loop-HasTable}
use tiny_os64v.Start.Driver.Console.{set_codec}
use tiny_os64v.Start.Driver.Console.Playing.{ahead, Plays, set_up-Plays}
use tiny_os64v.Start.Driver.Program.{serve, run_driver}

-- What rounds of the console end in, where the line editor ends in `o`: a fault where it has one,
-- and else its session, with its line in the buffer and a table of well-formed widgets.
pub data Ends (r : Option (Option Console × Session)) : Outcome → Type 0 where
  fault : r ≡ none → Ends r none
  ends :
      (c : Console) (line : List ℕ) (s : Session)
      → r ≡ some (some c, s)
      → Refines c line
      → HasTable s.codec
      → Ends r (some (line, s))

-- What the program promises, where `run` is it for a number of rounds and a buffer, and it resets the
-- device behind history `log`.
pub record Serves (p : Platform) (f : Firmware) (text_fuel : ℕ) (log : List Event)
    (run : ℕ → Console → Option (Option Console × Session)) : Type 0 where
  -- The session at the prompt.
  pub ready : Session
  pub is_reset : IsReset p log (some ready.codec)
  pub is_playing : IsPlaying ready.codec (16 * 4096) ready.world.log
  pub has_table : HasTable ready.codec
  pub serves :
      (rounds : ℕ) (c : Console)
      → Refines c []
      → (o : Outcome) × Runs p f text_fuel rounds [] (said ">" [] ready) o × Ends (run rounds c) o

module _ (p : Platform) (f : Firmware) (text_fuel : ℕ) where
  served-Ends :
      (rounds : ℕ) (c : Console) (s : Session) (r : Option (Console × Session)) (o : Outcome)
      → console_loop p f text_fuel rounds c s ≡ r
      → HasTable s.codec
      → Agrees p f text_fuel r o
      → Ends (r >>=? λ x. some (some x.0, x.1)) o
  served-Ends rounds c s none none e h agrees = Ends.fault refl
  served-Ends rounds c s none (some b) e h agrees = absurd agrees
  served-Ends rounds c s (some a) none e h agrees = absurd agrees
  served-Ends rounds c s (some a) (some b) e h (r, same) =
      Ends.ends a.0 b.0 b.1 (ap (λ s. some (some a.0, s)) same) r (
        subst (λ s. HasTable s.codec) same
          (console_loop-HasTable p f text_fuel rounds c a.0 s a.1 h e))

  serve-Ends :
      (rounds : ℕ) (c : Console) (s : Session)
      → HasTable s.codec
      → Refines c []
      → (o : Outcome) × Runs p f text_fuel rounds [] (said ">" [] s) o
        × Ends (serve p f text_fuel rounds c true s) o
  unfolding serve pure ◌>>=◌ ◌>>◌ render
  serve-Ends rounds c s h r =
      let (o, runs, agrees) = console_loop-Refines p f text_fuel rounds c [] (said ">" [] s) r in
      (
        o,
        runs,
        rw (say_fits ">" [] s _ refl (omega arith))
            (served-Ends rounds c (said ">" [] s) _ o refl h agrees),
      )

  set_up-Serves :
      (log : List Event) (run : ℕ → Console → Option (Option Console × Session)) (ws : List Widget)
      (r : Option (Bool × Session))
      → ((rounds : ℕ) (c : Console)
          → run rounds c ≡ (r >>=? λ x. serve p f text_fuel rounds c x.0 x.1))
      → Plays p log ws r
      → IsTable 0 ws
      → length ws ≡ 64
      → Serves p f text_fuel log run
  set_up-Serves log run ws r runs plays table size =
      let h : HasTable plays.session.codec =
        (subst (IsTable 0) (sym plays.widgets) table, ap length plays.widgets ∙ size) in
      record {
        ready = plays.session;
        is_reset = plays.is_reset;
        is_playing = plays.is_playing;
        has_table = h;
        serves = λ rounds c refines.
            let (o, edited, ended) = serve-Ends rounds c plays.session h refines in
            let same =
              runs rounds c
              ∙ ap (λ r. r >>=? λ x. serve p f text_fuel rounds c x.0 x.1) plays.returns in
            (o, edited, subst (λ r. Ends r o) (sym same) ended);
      }

  -- The object that the constructor makes, in its session.
  abbrev pub made : (input_descriptor output_descriptor : ℕ) → Session → Session
  made input_descriptor output_descriptor s =
      let (c, w) = new_codec p input_descriptor output_descriptor s.world in session c w

  -- On a device that leaves its reset within the fuel, and answers what it will else, the program
  -- comes to its prompt from the driver's constructor: the stream registers of the output are
  -- behind those of as many input streams as the device reports behind its reset, the sound plays
  -- there, on the first output stream, and the table has 64 widgets, each well formed for its place
  -- or as the default one is. From there any number of rounds of its console does what the line
  -- editor does, from the empty line on: it has a fault only where a command that Enter runs has
  -- one, and else ends in the editor's session, with the editor's line in the buffer, and with such
  -- a table.
  pub run_driver-Serves :
      (fuel j input_descriptor output_descriptor : ℕ) (s : Session)
      → j < fuel
      → has_left p
          (waited p j (begun p (ahead p (made input_descriptor output_descriptor s).world).log))
        ≡ true
      → Serves p f text_fuel
          (ahead p (made input_descriptor output_descriptor s).world).log
          (λ rounds c. run_driver p f text_fuel fuel rounds input_descriptor output_descriptor c s)
  unfolding run_driver drive set_codec ◌>>=◌ ◌>>◌
  run_driver-Serves fuel j input_descriptor output_descriptor s lt left =
      let new = made input_descriptor output_descriptor s in
      let (table, size) = new_codec-HasTable p input_descriptor output_descriptor s.world in
      set_up-Serves _ _ new.codec.widgets _ (λ rounds c. refl)
        (set_up-Plays p f text_fuel fuel j new size lt left) table size
