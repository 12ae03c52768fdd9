-- ===== src/Examples/Commands.antt =====
-- The theorems on the commands at concrete inputs.
use tiny_os64v.Base.{
  zero, suc, [], ◌∷◌, ◌++◌, none, some, true, false, ◌≡◌, ◌≢◌, refl, codes, All, arith,
}
use tiny_os64v.Hda.Reset.{new_codec}
use tiny_os64v.Firmware.{Firmware}
use tiny_os64v.Shell.View.{View, view, text, is_alpha}
use tiny_os64v.Shell.View.Words.{IsTerminated}
use tiny_os64v.Shell.View.Command.{letters, after_letters}
use tiny_os64v.Shell.Session.{Session}
use tiny_os64v.Shell.Value.{
  value_from_str, value_from_dec_str, value_from_hex_str, dec_loop, hex_loop, hexchar2value,
  is_numeric, is_hex,
}
use tiny_os64v.Shell.Commands.{cmd_node_io, cmd_write_codec_register}
use tiny_os64v.Shell.Commands.Params.{said}
use tiny_os64v.Shell.Commands.Count.{cmd_test}
use tiny_os64v.Shell.Commands.Count.Counted.{words_said, cmd_test_lem}
use tiny_os64v.Print.Format as Format
use tiny_os64v.Shell.Commands.Refused.{cmd_write_codec_register_refused}
use tiny_os64v.Shell.Commands.NodeIo.{node_io, cmd_node_io_lem}
use tiny_os64v.Shell.Commands.Execute.{Function, command, commands, run, execute}
use tiny_os64v.Shell.Commands.Execute.Dispatch.{execute_runs, execute_unknown}
use tiny_os64v.Examples.Driver.{ready_device, start}

-- Firmware with three text modes, of 25, 50 and 40 rows, that reports no key and no memory.
abbrev pub three_modes : Firmware
three_modes = record {
  text_mode = λ log mode. elim mode [
    | zero ↦ some (80, 25)
    | suc m ↦ elim m [
      | zero ↦ some (80, 50)
      | suc k ↦ elim k [ zero ↦ some (100, 40) | suc j ↦ none ]
    ]
  ];
  sets_text_mode = λ log mode. true;
  finds_graphics = λ log. false;
  video_mode = λ log. none;
  video_info = λ log mode. none;
  waits = λ log. true;
  key = λ log. none;
  pool = λ log size. none;
  memory = λ log address. none;
}

-- The session behind the constructor of the codec object.
abbrev pub session : Session
session = let r = new_codec ready_device 0x80 0xC0 start in record { codec = r.0; world = r.1 }

abbrev refresh_line : View
refresh_line = view (codes "refresh" ++ 0 ∷ []) 7

refresh_line-IsTerminated : IsTerminated refresh_line
refresh_line-IsTerminated = record { end = refl }

execute_runs_example :
    (params : View) × (text params ≡ after_letters (text refresh_line))
    × IsTerminated params
    × (execute ready_device three_modes 4 refresh_line session
        ≡ run ready_device three_modes 4 Function.refresh params session)
unfolding commands is_alpha
execute_runs_example =
    execute_runs ready_device three_modes 4 refresh_line session 4
      (command "refresh" Function.refresh "Update internal node database") refresh_line-IsTerminated
      refl refl

abbrev unknown_line : View
unknown_line = view (codes "reset 1" ++ 0 ∷ []) 7

unknown_line-IsTerminated : IsTerminated unknown_line
unknown_line-IsTerminated = record { end = refl }

others : All (λ d. letters (text unknown_line) ≢ codes d.name) commands
unfolding commands is_alpha
others = ground arith

execute_unknown_example :
    execute ready_device three_modes 4 unknown_line session ≡ some (false, session)
unfolding commands is_alpha
execute_unknown_example =
    execute_unknown ready_device three_modes 4 unknown_line session unknown_line-IsTerminated others

-- The parameters of `nodeio 2 $F00 9`.
abbrev node_params : View
node_params = view (codes " 2 $F00 9" ++ 0 ∷ []) 9

node_params-IsTerminated : IsTerminated node_params
node_params-IsTerminated = record { end = refl }

cmd_node_io_lem_example :
    cmd_node_io ready_device node_params session ≡ node_io ready_device 2 0xF00 9 session
unfolding value_from_str value_from_dec_str value_from_hex_str dec_loop hex_loop hexchar2value
    is_numeric is_hex
cmd_node_io_lem_example =
    cmd_node_io_lem ready_device node_params session node_params-IsTerminated
      (λ e. ground (arith, e)) (λ e. ground (arith, e))

-- The parameters of `write wakeen x7`.
abbrev bad_params : View
bad_params = view (codes " wakeen x7" ++ 0 ∷ []) 10

bad_params-IsTerminated : IsTerminated bad_params
bad_params-IsTerminated = record { end = refl }

cmd_write_codec_register_refused_example :
    cmd_write_codec_register bad_params session ≡ some (false, said "Invalid value\n\r" [] session)
unfolding value_from_str value_from_dec_str value_from_hex_str dec_loop hex_loop hexchar2value
    is_numeric is_hex
cmd_write_codec_register_refused_example =
    cmd_write_codec_register_refused bad_params session bad_params-IsTerminated
      (λ e. ground (arith, e)) refl

abbrev two_words : View
two_words = view (codes " ab c " ++ 0 ∷ []) 6

cmd_test_lem_example :
    cmd_test 7 two_words session
    ≡ some (
      true,
      said "\n\r  param count = %d\n\r"
          (Format.word 2 ∷ [])
          (words_said (codes "ab" ∷ codes "c" ∷ []) (said "TEST! " [] session)),
    )
cmd_test_lem_example =
    cmd_test_lem 7 two_words session (record { end = refl }) (omega arith) (omega arith)
