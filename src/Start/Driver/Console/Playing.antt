-- ===== src/Start/Driver/Console/Playing.antt =====
-- The sound that the set-up leaves.
use tiny_os64v.Base.{
  ℕ, ◌<◌, ◌*◌, List, [], Option, none, some, Bool, true, false, codes, length, get_elem?, ◌≡◌, ◌≢◌,
  refl, sym, ap, ◌∙◌, subst, arith,
}
use tiny_os64v.Hda.Types.{Codec, Widget}
use tiny_os64v.Hda.World.{Event, Platform, World, M}
use tiny_os64v.Hda.Collect.Table.{present}
use tiny_os64v.Hda.Verb.{write_reg}
use tiny_os64v.Hda.Reset.{reset, finish_reset, set_descriptors, with_descriptors}
use tiny_os64v.Hda.Reset.Streams.{IsReset, reset-IsReset, waited, has_left, begun}
use tiny_os64v.Hda.Stream.{play_sound}
use tiny_os64v.Hda.Stream.Writes.{IsPlaying, play_sound-IsPlaying}
use tiny_os64v.Firmware.{Firmware}
use tiny_os64v.Shell.View.{View, text, is_alpha}
use tiny_os64v.Shell.View.Words.{IsTerminated}
use tiny_os64v.Shell.View.Command.{letters, after_letters}
use tiny_os64v.Shell.Value.{value_from_str, value_from_dec_str, dec_loop, is_numeric}
use tiny_os64v.Shell.Session.{Session, C, pure, need, drive, gets, ◌>>=◌, ◌>>◌}
use tiny_os64v.Shell.Session.Succeeds.{
  session, Succeeds, pure-Succeeds, drive-Succeeds, bind-Succeeds, then-Succeeds,
}
use tiny_os64v.Shell.Commands.{widget_at}
use tiny_os64v.Shell.Commands.Params.{first_number, after_first}
use tiny_os64v.Shell.Commands.Unmute.{cmd_unmute_lem}
use tiny_os64v.Shell.Commands.Execute.{Function, command, commands, run, execute}
use tiny_os64v.Shell.Commands.Execute.Dispatch.{execute_runs}
use tiny_os64v.Start.Driver.{report_device}
use tiny_os64v.Start.Driver.Console.{
  set_codec, stream_format, unmute_12, unmute_27, set_up_stream, first_commands, set_up_reset,
  set_up,
}

-- Code behind a call of the driver.
calls {ℓ κ} :
    {A : Type ℓ} {B : Type κ} {c : Codec} (m : M A) (k : C B)
    → Succeeds c k
    → Succeeds c (drive m >> k)
calls {c} m k h = then-Succeeds c (drive m) k (drive-Succeeds c m) h

module _ (c : Codec) (size : length c.widgets ≡ 64) where
  widget_at-Succeeds : (id : ℕ) → id < 64 → Succeeds c (widget_at id)
  unfolding widget_at gets need ◌>>=◌
  widget_at-Succeeds id lt = record {
    goes = λ w.
        let (x, e) = present c.widgets id (omega (arith, size)) in
        record { result = x; world = w; returns = rw e refl };
  }

  set_up_stream-Succeeds : (p : Platform) → Succeeds c (set_up_stream p c)
  unfolding set_up_stream
  set_up_stream-Succeeds p = calls _ _ (
      calls _ _ (
        calls _ _ (
          calls _ _ (
            bind-Succeeds c _ _ (drive-Succeeds c _) (λ ok. calls _ _ (
              calls _ _ (
                calls _ _ (
                  calls _ _ (
                    bind-Succeeds c _ _ (widget_at-Succeeds 27 (omega arith)) (λ pin. calls _ _ (
                      bind-Succeeds c _ _ (widget_at-Succeeds 2 (omega arith)) (λ node.
                        bind-Succeeds c _ _ (drive-Succeeds c _)
                          (λ old. calls _ _ (calls _ _ (pure-Succeeds c tt)))))))))))))))

  module _ (p : Platform) (f : Firmware) (fuel : ℕ) where
    -- A line that unmutes a node of the table.
    unmute-Succeeds :
        (line : View) (id : ℕ)
        → IsTerminated line
        → letters (text line) ≡ codes "unmute"
        → first_number (after_letters (text line)) ≡ id
        → after_first (after_letters (text line)) ≢ []
        → id < 64
        → Succeeds c (execute p f fuel line)
    unfolding commands run
    unmute-Succeeds line id terminated named number more lt = record {
      goes = λ w.
          let (params, rest, ended, runs) =
            execute_runs p f fuel line (session c w) 3
              (command "unmute" Function.unmute "Unmute a node (nodeId)") terminated refl named in
          let (x, e) = present c.widgets id (omega (arith, size)) in
          let ran =
            cmd_unmute_lem p params (session c w) x ended
              (λ none_left. more (ap after_first (sym rest) ∙ none_left))
              (ap (λ t. get_elem? c.widgets (first_number t)) rest
                ∙ ap (get_elem? c.widgets) number
                ∙ e) in
          record { result = true; world = _; returns = runs ∙ ran };
    }

    unmute_12-Succeeds : Succeeds c (execute p f fuel unmute_12)
    unfolding value_from_str value_from_dec_str dec_loop is_numeric is_alpha
    unmute_12-Succeeds =
        unmute-Succeeds unmute_12 12 (record { end = refl }) refl refl (λ e. ground (arith, e))
          (omega arith)

    unmute_27-Succeeds : Succeeds c (execute p f fuel unmute_27)
    unfolding value_from_str value_from_dec_str dec_loop is_numeric is_alpha
    unmute_27-Succeeds =
        unmute-Succeeds unmute_27 27 (record { end = refl }) refl refl (λ e. ground (arith, e))
          (omega arith)

    -- The session in which the sound has been started, behind whatever came before.
    abbrev playing : World → Session
    playing v = session c (play_sound c (16 * 4096) stream_format v).1

    first_commands_lem :
        (w : World) → (v : World) × (first_commands p f fuel c (session c w) ≡ some (tt, playing v))
    unfolding first_commands drive pure ◌>>◌
    first_commands_lem w =
        let a = unmute_12-Succeeds.goes w in
        let b = unmute_27-Succeeds.goes a.world in (b.world, rw (a.returns, b.returns) refl)

    set_up_reset_lem :
        (s : Session) → (v : World) × (set_up_reset p f fuel (some c) s ≡ some (true, playing v))
    unfolding set_up_reset set_codec pure ◌>>◌
    set_up_reset_lem s =
        let a = (set_up_stream-Succeeds p).goes s.world in
        let (v, e) = first_commands_lem a.world in (v, rw (a.returns, e) refl)

-- What a reset leaves of the object, if it returns.
HasWidgets : List Widget → Option Codec → Type 0
HasWidgets ws none = Unit
HasWidgets ws (some c) = c.widgets ≡ ws

finish_reset-HasWidgets :
    (p : Platform) (c : Codec) (b : Bool) (w : World)
    → HasWidgets c.widgets (finish_reset p c b w).0
unfolding finish_reset set_descriptors with_descriptors HasWidgets
finish_reset-HasWidgets p c false w = tt
finish_reset-HasWidgets p c true w = refl

reset-HasWidgets :
    (p : Platform) (fuel : ℕ) (c : Codec) (w : World) → HasWidgets c.widgets (reset p fuel c w).0
unfolding reset
reset-HasWidgets p fuel c w = finish_reset-HasWidgets p c _ _

-- What the set-up of an object with widgets `ws` leaves, where it returns `r` and resets the device
-- behind history `log`: the sound plays on the first output stream behind the input streams that the
-- device reports, and the widgets are the same.
pub record Plays (p : Platform) (log : List Event) (ws : List Widget) (r : Option (Bool × Session))
    : Type 0 where
  pub session : Session
  pub returns : r ≡ some (true, session)
  pub widgets : session.codec.widgets ≡ ws
  pub is_reset : IsReset p log (some session.codec)
  pub is_playing : IsPlaying session.codec (16 * 4096) session.world.log

set_up_reset-Plays :
    (p : Platform) (f : Firmware) (text_fuel : ℕ) (log : List Event) (r : Option Codec)
    (ws : List Widget) (s : Session)
    → length ws ≡ 64
    → IsReset p log r
    → HasWidgets ws r
    → Plays p log ws (set_up_reset p f text_fuel r s)
unfolding HasWidgets
set_up_reset-Plays p f text_fuel log r ws s size i kept =
    let same : i.codec.widgets ≡ ws = subst (HasWidgets ws) i.returns kept in
    let (v, e) = set_up_reset_lem i.codec (ap length same ∙ size) p f text_fuel s in
    record {
      session = _;
      returns = ap (λ r. set_up_reset p f text_fuel r s) i.returns ∙ e;
      widgets = same;
      is_reset = record {
        codec = i.codec;
        returns = refl;
        j = i.j;
        before = i.before;
        left = i.left;
        input = i.input;
        output = i.output;
      };
      is_playing =
          play_sound-IsPlaying i.codec (16 * 4096) stream_format v (omega (arith, i.output));
    }

-- The world in which the device is reset.
abbrev pub ahead : Platform → World → World
ahead p w = (write_reg (codes "wakeen") 0x7F (report_device p w).1).1

-- On an object with 64 widgets, and a device that leaves its reset within the fuel, the set-up has
-- no fault, whatever the device answers else: the commands that unmute nodes 12 and 27 run on that
-- object, and in the end the stream registers are where the reset puts them, the descriptor list
-- stands in memory, and the first output stream plays 65536 bytes of the audio buffer. The widgets
-- are the ones that it began with.
pub set_up-Plays :
    (p : Platform) (f : Firmware) (text_fuel fuel j : ℕ) (s : Session)
    → length s.codec.widgets ≡ 64
    → j < fuel
    → has_left p (waited p j (begun p (ahead p s.world).log)) ≡ true
    → Plays p (ahead p s.world).log s.codec.widgets (set_up p f text_fuel fuel s)
unfolding set_up drive gets ◌>>◌ ◌>>=◌ HasWidgets
set_up-Plays p f text_fuel fuel j s size lt left =
    set_up_reset-Plays p f text_fuel (ahead p s.world).log _ s.codec.widgets _ size
      (reset-IsReset p fuel j s.codec (ahead p s.world) lt left)
      (reset-HasWidgets p fuel s.codec (ahead p s.world))
