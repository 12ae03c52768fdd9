-- ===== src/Hda/Refresh/Bounds.antt =====
-- A refresh and the form of a widget.
use tiny_os64v.Base.{ℕ, length}
use tiny_os64v.Hda.Types.{Widget}
use tiny_os64v.Hda.World.{Platform, World}
use tiny_os64v.Hda.Amps.Bounds.{get_output_amplifier_info-IsAmp}
use tiny_os64v.Hda.Collect.Bounds.{IsWidget, amplified, with_output, either}
use tiny_os64v.Hda.Collect.Lists.{input_amps-Amps}
use tiny_os64v.Hda.Refresh.{refresh_inputs, refresh_output, refresh_widget}

refresh_inputs-IsWidget :
    (p : Platform) (id : ℕ) (w : Widget) (v : World)
    → IsWidget id w
    → IsWidget id (refresh_inputs p w v).0
unfolding refresh_inputs
refresh_inputs-IsWidget p id w v is =
    amplified p id (length w.input_amps) _ w is is.few_inputs
      (input_amps-Amps p w.id (length w.input_amps) 0 v)

refresh_output-IsWidget :
    (p : Platform) (id : ℕ) (w : Widget) (v : World)
    → IsWidget id w
    → IsWidget id (refresh_output p w v).0
unfolding refresh_output
refresh_output-IsWidget p id w v is =
    either p id w.output_amp.valid _ _ v
      (with_output p id _ w is (get_output_amplifier_info-IsAmp p w.id v)) is

-- Whatever the codec answers, a refreshed widget is well formed if it was before.
pub refresh_widget-IsWidget :
    (p : Platform) (id : ℕ) (w : Widget) (v : World)
    → IsWidget id w
    → IsWidget id (refresh_widget p w v).0
unfolding refresh_widget
refresh_widget-IsWidget p id w v is =
    refresh_output-IsWidget p id _ _ (refresh_inputs-IsWidget p id w v is)
