-- ===== src/Hda/Dump/Safe.antt =====
-- The printing of widgets calls `print` with the arguments that its formats ask for.
use tiny_os64v.Base.{
  ℕ, ◌+◌, ◌≤◌, List, [], ◌∷◌, Option, none, some, Bool, true, false, ◌==◌, if◌then◌else◌, String,
  ◌≡◌, refl, arith, all_below, all_below-at,
}
use tiny_os64v.Print.Format.{Arg, word, c_string}
use tiny_os64v.Print.Format.Render.{render, directive_text, string_text}
use tiny_os64v.Hda.Types.{Amp, Widget, WidgetType, DefaultDevice, Location, JackInfo}
use tiny_os64v.Hda.World.{Event, World, M, print}
use tiny_os64v.Hda.Dump.{
  text, dump_side, dump_amp, dump_supported_streams, dump_amps, dump_input_amps, dump_output_amp,
  dump_nodes, dump_connections, dump_connected, dump_input, dump_output, dump_mixer, colour_text,
  dump_jack_info, dump_selected, dump_pin_complex, dump_type, dump, say_if, device_text,
  location_text,
}

abbrev is_some {ℓ} : {A : Type ℓ} → Option A → Bool
is_some none = false
is_some (some a) = true

-- A call of `print` whose format and arguments stand for a text.
abbrev pub Renders : String → List Arg → Type 0
Renders s args = is_some (render false (c_string s) args) ≡ true

state-Renders :
    (m : Bool) → Renders " state: %s      " (text (if m then "MUTED" else "unmuted") ∷ [])
unfolding render directive_text string_text
state-Renders true = refl
state-Renders false = refl

abbrev renders_colour : ℕ → Bool
renders_colour n = is_some (render false (c_string "  Jack colour: %s\n\r") (colour_text n ∷ []))

colour-Renders : (n : ℕ) → n ≤ 12 → Renders "  Jack colour: %s\n\r" (colour_text n ∷ [])
colour-Renders n h = all_below-at 13 renders_colour n table (omega arith)
  where
    table : all_below 13 renders_colour ≡ true
    table = unfold colour_text render directive_text string_text in refl

location-Renders : (l : Location) → Renders (location_text l) []
unfolding render directive_text string_text
location-Renders Location.front = refl
location-Renders Location.rear = refl
location-Renders Location.left = refl
location-Renders Location.right = refl
location-Renders Location.unknown = refl

device-Renders : (d : DefaultDevice) → Renders (device_text d) []
unfolding render directive_text string_text
device-Renders DefaultDevice.line_in = refl
device-Renders DefaultDevice.line_out = refl
device-Renders DefaultDevice.mic_in = refl
device-Renders DefaultDevice.speaker = refl
device-Renders DefaultDevice.headphone_out = refl
device-Renders DefaultDevice.spdif_in = refl
device-Renders DefaultDevice.spdif_out = refl
device-Renders DefaultDevice.unknown = refl

-- A history that sound calls of `print`, and nothing else, have added to another.
pub data Sound (base : List Event) : List Event → Type 0 where
  same : Sound base base
  said :
      (s : String) (args : List Arg) (log : List Event)
      → Renders s args
      → Sound base log
      → Sound base (Event.say s args ∷ log)

module _ (base : List Event) where
  -- A computation that adds sound calls alone.
  abbrev Safe {ℓ} : {A : Type ℓ} → M A → Type 0
  Safe m = (w : World) → Sound base w.log → Sound base (m w).1.log

  says : (s : String) (args : List Arg) → Renders s args → Safe (print s args)
  unfolding print
  says s args ok w h = Sound.said s args _ ok h

  branch :
      (b : Bool) (m k : M (Unit {0})) (w : World)
      → Sound base (m w).1.log
      → Sound base (k w).1.log
      → Sound base ((if b then m else k) w).1.log
  branch true m k w hm hk = hm
  branch false m k w hm hk = hk

  says_if : (b : Bool) (s : String) → Renders s [] → Safe (say_if b s)
  says_if b s ok w h = branch b _ _ w (says s [] ok w h) h

  dump_side-Safe :
      (side : String) (v : ℕ) (c m : Bool)
      → Renders "  %s: %d" (text side ∷ word v ∷ [])
      → Safe (dump_side side v c m)
  unfolding dump_side
  dump_side-Safe side v c m ok w h = search (branch, says, state-Renders m)

  dump_amp-Safe : (amp : Amp) → Safe (dump_amp amp)
  unfolding dump_amp render directive_text string_text
  dump_amp-Safe amp w h = search (branch, says, dump_side-Safe)

  dump_supported_streams-Safe : (s : ℕ) → Safe (dump_supported_streams s)
  unfolding dump_supported_streams render directive_text string_text
  dump_supported_streams-Safe s w h = search (says_if) depth 20 fits 2000

  dump_amps-Safe : (i : ℕ) (amps : List Amp) → Safe (dump_amps i amps)
  unfolding dump_amps render directive_text string_text
  dump_amps-Safe i [] w h = h
  dump_amps-Safe i (amp ∷ amps) w h =
      dump_amps-Safe (i + 1) amps _ (dump_amp-Safe amp _ (says _ _ refl w h))

  dump_input_amps-Safe : (x : Widget) → Safe (dump_input_amps x)
  unfolding dump_input_amps render directive_text string_text
  dump_input_amps-Safe x w h = search (branch, says, dump_amps-Safe)

  dump_output_amp-Safe : (s : String) (x : Widget) → Renders s [] → Safe (dump_output_amp s x)
  unfolding dump_output_amp
  dump_output_amp-Safe s x ok w h = search (branch, says, dump_amp-Safe)

  dump_nodes-Safe : (nodes : List ℕ) → Safe (dump_nodes nodes)
  unfolding dump_nodes render directive_text string_text
  dump_nodes-Safe [] w h = h
  dump_nodes-Safe (o ∷ os) w h = dump_nodes-Safe os _ (says _ _ refl w h)

  dump_connections-Safe :
      (s : String) (nodes : List ℕ) → Renders s [] → Safe (dump_connections s nodes)
  unfolding dump_connections render directive_text string_text
  dump_connections-Safe s nodes ok w h = search (says, dump_nodes-Safe)

  dump_connected-Safe : (x : Widget) → Safe (dump_connected x)
  unfolding dump_connected render directive_text string_text
  dump_connected-Safe x w h = search (branch, dump_connections-Safe)

  dump_input-Safe : (x : Widget) → Safe (dump_input x)
  unfolding dump_input render directive_text string_text
  dump_input-Safe x w h =
      search (
        dump_input_amps-Safe, dump_output_amp-Safe, dump_connected-Safe,
        dump_supported_streams-Safe,
      )

  dump_output-Safe : (x : Widget) → Safe (dump_output x)
  unfolding dump_output render directive_text string_text
  dump_output-Safe x w h =
      search (
        dump_input_amps-Safe, dump_output_amp-Safe, dump_connected-Safe,
        dump_supported_streams-Safe,
      )

  dump_mixer-Safe : (x : Widget) → Safe (dump_mixer x)
  unfolding dump_mixer render directive_text string_text
  dump_mixer-Safe x w h = search (dump_connections-Safe, dump_input_amps-Safe, dump_output_amp-Safe)

  dump_jack_info-Safe : (info : JackInfo) → info.colour ≤ 12 → Safe (dump_jack_info info)
  unfolding dump_jack_info
  dump_jack_info-Safe info le w h =
      says _ _ (location-Renders info.location) _ (says _ _ (colour-Renders info.colour le) w h)

  dump_selected-Safe : (selection i : ℕ) (nodes : List ℕ) → Safe (dump_selected selection i nodes)
  unfolding dump_selected render directive_text string_text
  dump_selected-Safe selection i [] w h = h
  dump_selected-Safe selection i (o ∷ os) w h =
      dump_selected-Safe selection (i + 1) os _
        (branch (i == selection) _ _ w (says _ _ refl w h) (says _ _ refl w h))

  dump_pin_complex-Safe : (x : Widget) → x.jack_info.colour ≤ 12 → Safe (dump_pin_complex x)
  unfolding dump_pin_complex render directive_text string_text
  dump_pin_complex-Safe x le w h =
      search (branch, says, says_if, device-Renders, dump_jack_info-Safe, dump_selected-Safe) depth
        12 fits 2000

  dump_type-Safe : (t : WidgetType) (x : Widget) → x.jack_info.colour ≤ 12 → Safe (dump_type t x)
  unfolding dump_type render directive_text string_text
  dump_type-Safe WidgetType.input x le w h = search (says, dump_input-Safe)
  dump_type-Safe WidgetType.output x le w h = search (says, dump_output-Safe)
  dump_type-Safe WidgetType.mixer x le w h = search (says, dump_mixer-Safe)
  dump_type-Safe WidgetType.selector x le w h = says _ _ refl w h
  dump_type-Safe WidgetType.pin_complex x le w h = search (says, dump_pin_complex-Safe)
  dump_type-Safe WidgetType.beep_gen x le w h = says _ _ refl w h
  dump_type-Safe WidgetType.vendor x le w h = says _ _ refl w h
  dump_type-Safe WidgetType.unknown x le w h = says _ _ refl w h

  dump-Safe : (x : Widget) → x.jack_info.colour ≤ 12 → Safe (dump x)
  unfolding dump render directive_text string_text
  dump-Safe x le w h = search (says, says_if, dump_type-Safe)

-- Printing a widget whose jack has one of the 13 named colours does nothing but call `print`, and only
-- with formats and arguments that stand for a text.
pub dump-Sound : (x : Widget) (w : World) → x.jack_info.colour ≤ 12 → Sound w.log (dump x w).1.log
dump-Sound x w le = dump-Safe w.log x le w Sound.same
