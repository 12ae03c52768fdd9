-- ===== src/Shell/Commands/Execute.antt =====
-- The table of commands of src/commands.cpp, `cmdHelp`, and `Commands::execute`.
pub mod Dispatch
pub mod Table
use tiny_os64v.Base.{
  ℕ, zero, suc, ◌-◌, List, [], ◌∷◌, Option, none, some, Bool, true, false, ◌&&◌, if◌then◌else◌,
  ◌==◌, String, codes, length,
}
use tiny_os64v.Print.Format.{Arg, chars, c_string}
use tiny_os64v.Hda.World.{Platform}
use tiny_os64v.Firmware.{Firmware}
use tiny_os64v.Shell.View.{View, text, sub_view, get_command}
use tiny_os64v.Shell.Commands.{
  cmd_unmute, cmd_refresh, cmd_node_io, cmd_display_node, cmd_play_pos, cmd_get_format,
  cmd_read_codec_register, cmd_write_codec_register,
}
use tiny_os64v.Shell.Commands.Modes.{
  spaces, cmd_show_text, cmd_set_text_mode, cmd_show_video, cmd_read_mem,
}
use tiny_os64v.Shell.Session.{Session, C, pure, need, ◌>>=◌, ◌>>◌, say}

-- The functions that the table points to.
pub data Function : Type 0 where
  read write node unmute refresh node_io get_format play_pos show_video show_text set_text_mode
        read_mem help :
      Function

pub record CommandDef : Type 0 where
  pub name : String
  pub func : Function
  pub description : String

abbrev pub command : String → Function → String → CommandDef
command n f d = record { name = n; func = f; description = d }

unfoldable pub commands : List CommandDef
commands =
    command "read" Function.read "Read codec register (reg name)"
    ∷ command "write" Function.write "Write codec register (reg name, data)"
    ∷ command "node" Function.node "Display codec node information (nodeId)"
    ∷ command "unmute" Function.unmute "Unmute a node (nodeId)"
    ∷ command "refresh" Function.refresh "Update internal node database"
    ∷ command "nodeio" Function.node_io "Write a verb/command to a node (nodeId, verb, payload)"
    ∷ command "getformat" Function.get_format
        "Get the stream format for input/output nodes (nodeId)"
    ∷ command "playpos" Function.play_pos "Get the current play position"
    ∷ command "showvideo" Function.show_video "Show available video modes"
    ∷ command "showtext" Function.show_text "Show available text modes"
    ∷ command "settextmode" Function.set_text_mode "Set text mode by id (mode id)"
    ∷ command "rdmem" Function.read_mem "Read memory address (addr [, length])"
    ∷ command "help" Function.help "Show this list"
    ∷ []

unfoldable pub help_line : CommandDef → C (Unit {0})
help_line c = do
  printed ← say "  %s :" (chars (c_string c.name) ∷ [])
  spaces (16 - printed)
  say "%s\n\r" (chars (c_string c.description) ∷ [])
  pure tt

-- The loop of `cmdHelp`.
unfoldable pub help_lines : List CommandDef → C (Unit {0})
help_lines [] = pure tt
help_lines (c ∷ cs) = do help_line c; help_lines cs

unfoldable pub cmd_help : View → C Bool
cmd_help params = do say "Available commands:\n\r" []; help_lines commands; pure true

-- `==` of two string views.
unfoldable pub same_text : List ℕ → List ℕ → Bool
same_text [] [] = true
same_text [] (d ∷ t) = false
same_text (c ∷ s) [] = false
same_text (c ∷ s) (d ∷ t) = (c == d) && same_text s t

module _ (p : Platform) (f : Firmware) (fuel : ℕ) where
  -- A call through `m_func`. The fuel is that of the loop of `cmdShowText`.
  unfoldable pub run : Function → View → C Bool
  run Function.read = cmd_read_codec_register p
  run Function.write = cmd_write_codec_register
  run Function.node = cmd_display_node
  run Function.unmute = cmd_unmute p
  run Function.refresh = cmd_refresh p
  run Function.node_io = cmd_node_io p
  run Function.get_format = cmd_get_format p
  run Function.play_pos = cmd_play_pos p
  run Function.show_video = cmd_show_video f
  run Function.show_text = cmd_show_text f fuel
  run Function.set_text_mode = cmd_set_text_mode f
  run Function.read_mem = cmd_read_mem f
  run Function.help = cmd_help

  -- The loop of `execute` over the commands that are left.
  unfoldable pub execute_loop : List CommandDef → (line cmd : View) → C Bool
  execute_loop [] line cmd = pure false
  execute_loop (c ∷ cs) line cmd =
      let rest = execute_loop cs line cmd in
      if same_text (codes c.name) (text cmd)
      then run c.func (sub_view line cmd.size (line.size - cmd.size))
      else rest

  unfoldable pub execute : View → C Bool
  execute line = do cmd ← need (get_command line); execute_loop commands line cmd
