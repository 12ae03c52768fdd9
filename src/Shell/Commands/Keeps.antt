-- ===== src/Shell/Commands/Keeps.antt =====
-- The commands other than `cmdRefresh` and `cmdHelp` keep every property of the codec object.
use tiny_os64v.Base.{ℕ, zero, suc, Option, none, some, Bool, true, false}
use tiny_os64v.Hda.Types.{Codec, StreamFormat}
use tiny_os64v.Hda.World.{Platform}
use tiny_os64v.Firmware.{Firmware, VideoMode}
use tiny_os64v.Shell.View.{View}
use tiny_os64v.Shell.Session.{C}
use tiny_os64v.Shell.Session.Keeps.{
  Ends, Keeps, pure-Keeps, need-Keeps, drive-Keeps, gets-Keeps, ask-Keeps, if-Keeps, bind-Keeps,
  then-Keeps, say-Keeps,
}
use tiny_os64v.Shell.Commands.Modes.{
  spaces, show_text_loop, show_text_round, cmd_show_text, set_text_mode, cmd_set_text_mode,
  video_column, video_line, show_video_loop, show_video_modes, show_video_found, cmd_show_video,
  read_mem_loop, read_mem, cmd_read_mem,
}
use tiny_os64v.Shell.Commands.{
  widget_at, cmd_unmute, report_response, cmd_node_io, display_node, cmd_display_node, cmd_play_pos,
  report_format, node_format, cmd_get_format, cmd_read_codec_register, write_codec_register,
  cmd_write_codec_register,
}

pub ruleset keeps = (
  pure-Keeps, need-Keeps, drive-Keeps, gets-Keeps, ask-Keeps, if-Keeps, bind-Keeps, then-Keeps,
  say-Keeps,
)

module _ (P : Codec → Type 0) where
  widget_at-Keeps : (id : ℕ) → Keeps P (widget_at id)
  unfolding widget_at
  widget_at-Keeps id = search (keeps)

  pub cmd_unmute-Keeps : (p : Platform) (v : View) → Keeps P (cmd_unmute p v)
  unfolding cmd_unmute
  cmd_unmute-Keeps p v = search (keeps, widget_at-Keeps) depth 40 fits 4000

  pub spaces-Keeps : (n : ℕ) → Keeps P (spaces n)
  unfolding spaces
  spaces-Keeps zero = search (keeps)
  spaces-Keeps (suc n) = then-Keeps P _ _ (say-Keeps P _ _) (spaces-Keeps n)

  report_response-Keeps : (r : Option ℕ) → Keeps P (report_response r)
  unfolding report_response
  report_response-Keeps none = search (keeps)
  report_response-Keeps (some r) = search (keeps)

  pub cmd_node_io-Keeps : (p : Platform) (v : View) → Keeps P (cmd_node_io p v)
  unfolding cmd_node_io
  cmd_node_io-Keeps p v = search (keeps, report_response-Keeps) depth 40 fits 4000

  display_node-Keeps : (r : Option ℕ) → Keeps P (display_node r)
  unfolding display_node
  display_node-Keeps none = search (keeps)
  display_node-Keeps (some id) = search (keeps, widget_at-Keeps) depth 20 fits 4000

  pub cmd_display_node-Keeps : (v : View) → Keeps P (cmd_display_node v)
  unfolding cmd_display_node
  cmd_display_node-Keeps v = search (keeps, display_node-Keeps)

  pub cmd_play_pos-Keeps : (p : Platform) (v : View) → Keeps P (cmd_play_pos p v)
  unfolding cmd_play_pos
  cmd_play_pos-Keeps p v = search (keeps) depth 20

  report_format-Keeps : (f : Option StreamFormat) → Keeps P (report_format f)
  unfolding report_format
  report_format-Keeps none = search (keeps)
  report_format-Keeps (some f) = search (keeps)

  node_format-Keeps : (p : Platform) (r : Option ℕ) → Keeps P (node_format p r)
  unfolding node_format
  node_format-Keeps p none = search (keeps)
  node_format-Keeps p (some id) =
      search (keeps, widget_at-Keeps, report_format-Keeps) depth 20 fits 4000

  pub cmd_get_format-Keeps : (p : Platform) (v : View) → Keeps P (cmd_get_format p v)
  unfolding cmd_get_format
  cmd_get_format-Keeps p v = search (keeps, node_format-Keeps)

  pub cmd_read_codec_register-Keeps :
      (p : Platform) (v : View) → Keeps P (cmd_read_codec_register p v)
  unfolding cmd_read_codec_register
  cmd_read_codec_register-Keeps p v = search (keeps) depth 20

  write_codec_register-Keeps :
      (regname : View) (r : Option ℕ) → Keeps P (write_codec_register regname r)
  unfolding write_codec_register
  write_codec_register-Keeps regname none = search (keeps)
  write_codec_register-Keeps regname (some v) = search (keeps)

  pub cmd_write_codec_register-Keeps : (v : View) → Keeps P (cmd_write_codec_register v)
  unfolding cmd_write_codec_register
  cmd_write_codec_register-Keeps v = search (keeps, write_codec_register-Keeps)

  module _ (f : Firmware) where
    show_text_round-Keeps :
        (rest : C Bool) (mode : ℕ) (found : Option (ℕ × ℕ))
        → Keeps P rest
        → Keeps P (show_text_round rest mode found)
    unfolding show_text_round
    show_text_round-Keeps rest mode none h = search (keeps)
    show_text_round-Keeps rest mode (some r) h = search (keeps)

    show_text_loop-Keeps : (fuel mode : ℕ) → Keeps P (show_text_loop f fuel mode)
    unfolding show_text_loop
    show_text_loop-Keeps zero mode = search (keeps)
    show_text_loop-Keeps (suc fuel) mode =
        search (keeps, show_text_round-Keeps, show_text_loop-Keeps fuel)

    pub cmd_show_text-Keeps : (fuel : ℕ) (v : View) → Keeps P (cmd_show_text f fuel v)
    unfolding cmd_show_text
    cmd_show_text-Keeps fuel v = search (keeps, show_text_loop-Keeps)

    set_text_mode-Keeps : (r : Option ℕ) → Keeps P (set_text_mode f r)
    unfolding set_text_mode
    set_text_mode-Keeps none = search (keeps)
    set_text_mode-Keeps (some mode) = search (keeps)

    pub cmd_set_text_mode-Keeps : (v : View) → Keeps P (cmd_set_text_mode f v)
    unfolding cmd_set_text_mode
    cmd_set_text_mode-Keeps v = search (keeps, set_text_mode-Keeps)

    video_column-Keeps : (mode offset : ℕ) → Keeps P (video_column mode offset)
    unfolding video_column
    video_column-Keeps mode offset = search (keeps, spaces-Keeps)

    video_line-Keeps : (mode : ℕ) (size : ℕ × ℕ) → Keeps P (video_line mode size)
    unfolding video_line
    video_line-Keeps mode size = search (keeps)

    show_video_loop-Keeps :
        (left mode offset : ℕ) (info : Option (ℕ × ℕ))
        → Keeps P (show_video_loop f left mode offset info)
    unfolding show_video_loop
    show_video_loop-Keeps zero mode offset info = search (keeps)
    show_video_loop-Keeps (suc left) mode offset info =
        search (keeps, video_column-Keeps, video_line-Keeps, show_video_loop-Keeps left) depth 20
          fits 4000

    show_video_modes-Keeps : (mode : Option VideoMode) → Keeps P (show_video_modes f mode)
    unfolding show_video_modes
    show_video_modes-Keeps mode = search (keeps, show_video_loop-Keeps) depth 20 fits 4000

    show_video_found-Keeps : (found : Bool) → Keeps P (show_video_found f found)
    unfolding show_video_found
    show_video_found-Keeps false = search (keeps)
    show_video_found-Keeps true = search (keeps, show_video_modes-Keeps)

    pub cmd_show_video-Keeps : (v : View) → Keeps P (cmd_show_video f v)
    unfolding cmd_show_video
    cmd_show_video-Keeps v = search (keeps, show_video_found-Keeps)

    read_mem_loop-Keeps : (address left offset : ℕ) → Keeps P (read_mem_loop f address left offset)
    unfolding read_mem_loop
    read_mem_loop-Keeps address zero offset = search (keeps)
    read_mem_loop-Keeps address (suc left) offset =
        search (keeps, read_mem_loop-Keeps address left) depth 20 fits 4000

    read_mem-Keeps : (address len : Option ℕ) → Keeps P (read_mem f address len)
    unfolding read_mem
    read_mem-Keeps none len = search (keeps)
    read_mem-Keeps (some address) len = search (keeps, read_mem_loop-Keeps)

    pub cmd_read_mem-Keeps : (v : View) → Keeps P (cmd_read_mem f v)
    unfolding cmd_read_mem
    cmd_read_mem-Keeps v = search (keeps, read_mem-Keeps)
