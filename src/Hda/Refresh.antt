-- ===== src/Hda/Refresh.antt =====
-- `refreshWidget` of src/hdacodec.cpp.
pub mod Bounds
use tiny_os64v.Base.{ℕ, zero, suc, ◌+◌, List, [], ◌∷◌, Bool, true, false, if◌then◌else◌, length}
use tiny_os64v.Hda.Types.{Amp, Widget}
use tiny_os64v.Hda.World.{Platform, World, M, ◌>>=◌, ◌>>◌, pure}
use tiny_os64v.Hda.Amps.{get_output_amplifier_info}
use tiny_os64v.Hda.Collect.{input_amps}

module _ (p : Platform) where
  -- The loop assigns each amplifier anew; with none it makes no round.
  unfoldable pub refresh_inputs : Widget → M Widget
  refresh_inputs w = do
    amps ← input_amps p w.id (length w.input_amps) 0
    pure (record w { input_amps = amps })

  unfoldable pub refresh_output : Widget → M Widget
  refresh_output w =
      if w.output_amp.valid
      then (do amp ← get_output_amplifier_info p w.id; pure (record w { output_amp = amp }))
      else pure w

  unfoldable pub refresh_widget : Widget → M Widget
  refresh_widget w = do w' ← refresh_inputs w; refresh_output w'
