-- ===== src/Shell/Commands/Execute/Table.antt =====
-- Every command leaves the widgets well formed.
use tiny_os64v.Base.{
  ℕ, suc, ◌+◌, ◌<◌, List, [], ◌∷◌, Option, none, some, Bool, ◌≡◌, refl, ap, ◌∙◌, subst, ◌⊎◌, inl,
  inr, length, get_elem?, arith,
}
use tiny_os64v.Hda.Types.{Codec, Widget, new_widget}
use tiny_os64v.Hda.World.{Platform, World}
use tiny_os64v.Hda.Collect.Bounds.{IsWidget, new_widget-IsWidget}
use tiny_os64v.Hda.Collect.{collect_widget_information}
use tiny_os64v.Hda.Collect.Table.{collect_widget_information-IsWidget}
use tiny_os64v.Hda.Reset.{new_codec}
use tiny_os64v.Hda.Refresh.Bounds.{refresh_widget-IsWidget}
use tiny_os64v.Firmware.{Firmware}
use tiny_os64v.Shell.View.{View}
use tiny_os64v.Shell.Session.{Session, pure, drive, gets, ◌>>=◌, ◌>>◌, set_widgets}
use tiny_os64v.Shell.Session.Keeps.{Ends, Keeps, if-Keeps, then-Keeps}
use tiny_os64v.Shell.Commands.Execute.{
  Function, CommandDef, help_line, help_lines, cmd_help, run, execute_loop, execute,
}
use tiny_os64v.Shell.Commands.{refresh_all, cmd_refresh}
use tiny_os64v.Shell.Commands.Keeps.{
  keeps, spaces-Keeps, cmd_unmute-Keeps, cmd_node_io-Keeps, cmd_display_node-Keeps,
  cmd_play_pos-Keeps, cmd_get_format-Keeps, cmd_read_codec_register-Keeps,
  cmd_write_codec_register-Keeps, cmd_show_text-Keeps, cmd_set_text_mode-Keeps,
  cmd_show_video-Keeps, cmd_read_mem-Keeps,
}

-- Entry `i` of a list is well formed for its node, from node `id` on, or has the identifier 0.
abbrev pub IsTable : ℕ → List Widget → Type 0
IsTable id [] = Unit
IsTable id (w ∷ ws) = (IsWidget id w ⊎ IsWidget 0 w) × IsTable (id + 1) ws

refresh_all-IsTable :
    (p : Platform) (id : ℕ) (ws : List Widget) (v : World)
    → IsTable id ws
    → IsTable id (refresh_all p ws v).0
unfolding refresh_all
refresh_all-IsTable p id [] v h = tt
refresh_all-IsTable p id (w ∷ ws) v (inl is, h) =
    (inl (refresh_widget-IsWidget p id w v is), refresh_all-IsTable p (id + 1) ws _ h)
refresh_all-IsTable p id (w ∷ ws) v (inr is, h) =
    (inr (refresh_widget-IsWidget p 0 w v is), refresh_all-IsTable p (id + 1) ws _ h)

-- The table of the 64 nodes.
abbrev pub HasTable : Codec → Type 0
HasTable c = IsTable 0 c.widgets × (length c.widgets ≡ 64)

length-refresh_all :
    (p : Platform) (ws : List Widget) (v : World) → length (refresh_all p ws v).0 ≡ length ws
unfolding refresh_all
length-refresh_all p [] v = refl
length-refresh_all p (w ∷ ws) v = ap suc (length-refresh_all p ws _)

-- `cmdRefresh` is the one command that assigns the widgets.
cmd_refresh-Keeps : (p : Platform) (v : View) → Keeps HasTable (cmd_refresh p v)
unfolding cmd_refresh ◌>>=◌ ◌>>◌ gets drive set_widgets pure
cmd_refresh-Keeps p v = record {
  keeps = λ s h. (
    refresh_all-IsTable p 0 s.codec.widgets s.world h.0,
    length-refresh_all p s.codec.widgets s.world ∙ h.1,
  );
}

help_line-Keeps : (P : Codec → Type 0) (c : CommandDef) → Keeps P (help_line c)
unfolding help_line
help_line-Keeps P c = search (keeps, spaces-Keeps) depth 12

help_lines-Keeps : (P : Codec → Type 0) (cs : List CommandDef) → Keeps P (help_lines cs)
unfolding help_lines
help_lines-Keeps P [] = search (keeps)
help_lines-Keeps P (c ∷ cs) = then-Keeps P _ _ (help_line-Keeps P c) (help_lines-Keeps P cs)

cmd_help-Keeps : (P : Codec → Type 0) (v : View) → Keeps P (cmd_help v)
unfolding cmd_help
cmd_help-Keeps P v = search (keeps, help_lines-Keeps)

-- What holds of every result holds of the result at hand.
pub Ends-some {ℓ} :
    {A : Type ℓ} (r : Option (A × Session)) (a : A) (s : Session)
    → Ends HasTable r
    → r ≡ some (a, s)
    → HasTable s.codec
Ends-some none a s h e = cc
Ends-some (some x) a s h e = subst (λ y. Ends HasTable y) e h

module _ (p : Platform) (f : Firmware) (fuel : ℕ) where
  run-Keeps : (func : Function) (v : View) → Keeps HasTable (run p f fuel func v)
  unfolding run
  run-Keeps Function.read v = cmd_read_codec_register-Keeps HasTable p v
  run-Keeps Function.write v = cmd_write_codec_register-Keeps HasTable v
  run-Keeps Function.node v = cmd_display_node-Keeps HasTable v
  run-Keeps Function.unmute v = cmd_unmute-Keeps HasTable p v
  run-Keeps Function.refresh v = cmd_refresh-Keeps p v
  run-Keeps Function.node_io v = cmd_node_io-Keeps HasTable p v
  run-Keeps Function.get_format v = cmd_get_format-Keeps HasTable p v
  run-Keeps Function.play_pos v = cmd_play_pos-Keeps HasTable p v
  run-Keeps Function.show_video v = cmd_show_video-Keeps HasTable f v
  run-Keeps Function.show_text v = cmd_show_text-Keeps HasTable f fuel v
  run-Keeps Function.set_text_mode v = cmd_set_text_mode-Keeps HasTable f v
  run-Keeps Function.read_mem v = cmd_read_mem-Keeps HasTable f v
  run-Keeps Function.help v = cmd_help-Keeps HasTable v

  execute_loop-Keeps :
      (cs : List CommandDef) (line cmd : View) → Keeps HasTable (execute_loop p f fuel cs line cmd)
  unfolding execute_loop
  execute_loop-Keeps [] line cmd = search (keeps)
  execute_loop-Keeps (c ∷ cs) line cmd =
      if-Keeps HasTable _ _ _ (run-Keeps c.func _) (execute_loop-Keeps cs line cmd)

  pub execute-Keeps : (line : View) → Keeps HasTable (execute p f fuel line)
  unfolding execute
  execute-Keeps line = search (keeps, execute_loop-Keeps)

  -- A table of 64 widgets, each well formed for its place or as the default one is, stays so
  -- through any command.
  execute-HasTable :
      (line : View) (s s' : Session) (b : Bool)
      → HasTable s.codec
      → execute p f fuel line s ≡ some (b, s')
      → HasTable s'.codec
  execute-HasTable line s s' b h e = Ends-some _ b s' ((execute-Keeps line).keeps s h) e

-- A list of which each entry is well formed for its place or the default widget is a table.
entries-IsTable :
    (id : ℕ) (ws : List Widget)
    → ((i j : ℕ)
        → i < length ws
        → j ≡ id + i
        → (w : Widget) × (get_elem? ws i ≡ some w) × (IsWidget j w ⊎ (w ≡ new_widget 0)))
    → IsTable id ws
entries-IsTable id [] h = tt
entries-IsTable id (x ∷ ws) h = (
  first (h 0 id (omega arith) (omega arith)),
  entries-IsTable (id + 1) ws (λ i j lt e. h (suc i) j (omega arith) (omega arith)),
)
  where
    first :
        ((w : Widget) × (get_elem? (x ∷ ws) 0 ≡ some w) × (IsWidget id w ⊎ (w ≡ new_widget 0)))
        → IsWidget id x ⊎ IsWidget 0 x
    first (w, e, inl is) = inl (subst (IsWidget id) (ground arith) is)
    first (w, e, inr default) = inr (subst (IsWidget 0) (ground arith) (new_widget-IsWidget 0))

-- The constructor makes such a table, whatever the device answers.
pub new_codec-HasTable :
    (p : Platform) (input_descriptor output_descriptor : ℕ) (w : World)
    → HasTable (new_codec p input_descriptor output_descriptor w).0
unfolding new_codec
new_codec-HasTable p input_descriptor output_descriptor w = collected p _ _ refl
  where
    collected :
        (p : Platform) (c : Codec) (v : World)
        → c.widgets ≡ []
        → HasTable (collect_widget_information p c v).0
    collected p c v new =
        let size = (collect_widget_information-IsWidget p c v 0 new (omega arith)).0 in
        (
          entries-IsTable 0 (collect_widget_information p c v).0.widgets (λ i j lt at.
              let (n, w, e, k) =
                collect_widget_information-IsWidget p c v i new (omega (arith, size)) in
              let same = ap (λ k. k) {x = i} {y = j} (omega arith) in
              (w, e, subst (λ k. IsWidget k w ⊎ (w ≡ new_widget 0)) same k)),
          size,
        )
