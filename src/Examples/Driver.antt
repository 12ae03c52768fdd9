-- ===== src/Examples/Driver.antt =====
-- The theorems on the audio driver at concrete inputs.
use tiny_os64v.Base.{
  ℕ, ◌+◌, ◌*◌, ◌/◌, ◌%◌, ◌^◌, ◌<◌, [], ◌∷◌, some, true, length, get_elem?, ◌≡◌, refl, ap, arith,
  inl, ◌⊎◌, ◌==◌, if◌then◌else◌, u32,
}
use tiny_os64v.Hda.Types.{Codec, Widget, StreamFormat, SampleRate, BitDepth, new_widget}
use tiny_os64v.Hda.World.{Platform, World}
use tiny_os64v.Hda.Verb.{verb, verb_word, read_verb_response}
use tiny_os64v.Hda.Verb.Word.{verb_word_fields}
use tiny_os64v.Hda.Verb.Poll.{Polls, read_verb_response_ready, read_verb_response-Polls}
use tiny_os64v.Hda.Collect.{collect_connections, collect_widget_information}
use tiny_os64v.Hda.Collect.Entries.{Connects, Holds, collect_connections-Holds}
use tiny_os64v.Hda.Collect.Bounds.{IsWidget}
use tiny_os64v.Hda.Collect.Table.{collect_widget_information-IsWidget}
use tiny_os64v.Shell.Report.Node.{report_connections, type_of}
use tiny_os64v.Shell.Report.Prints.{numbers, behind}
use tiny_os64v.Shell.Report.Prints.Connections.{
  Answers, with_selection, report_connections-collected,
}
use tiny_os64v.Hda.Format.{set_format, get_sample_rate, get_bit_depth, get_channels}
use tiny_os64v.Hda.Format.RoundTrip.{set_format-RoundTrip}
use tiny_os64v.Hda.Stream.{play_sound, stop_sound}
use tiny_os64v.Hda.Stream.Writes.{last_write, stop_sound_runs_on}
use tiny_os64v.Hda.Reset.{reset}
use tiny_os64v.Hda.Reset.Streams.{IsReset, reset-IsReset}
use tiny_os64v.Hda.Dump.{dump}
use tiny_os64v.Hda.Dump.Safe.{Sound, dump-Sound}

-- A device that is out of its reset and answers each verb at once: it has two input streams.
abbrev ready_register : (width offset : ℕ) → ℕ
ready_register width offset =
    if offset == 0
    then 0x4201
    else if offset == 8
    then 1
    else if offset == 0x68
    then 2
    else 0x80000042

abbrev pub ready_device : Platform
ready_device = record {
  register = λ log width offset. ready_register width offset;
  allocate_pages = λ log pages. (0, 0x1000);
}

-- A device all of whose registers read as zero.
abbrev dead_device : Platform
dead_device = record { register = λ log width offset. 0; allocate_pages = λ log pages. (0, 0x1000) }

abbrev pub start : World
start = record { log = [] }

abbrev codec : Codec
codec = record {
  widgets = [];
  descriptor_buffer = 0x1000;
  audio_buffer = 0x2000;
  dma_position_buffer = 0x12000;
  input_descriptor = 0x80;
  output_descriptor = 0xC0;
}

abbrev cd_format : StreamFormat
cd_format = record { value = 0x4011 }

abbrev GivesWord : (word c node verb command : ℕ) → Type 0
GivesWord word c node verb command =
    (word < 2 ^ 32)
    × (word / 2 ^ 28 ≡ c)
    × (word / 2 ^ 20 % 256 ≡ node)
    × (word / 2 ^ 16 % 16 ≡ verb / 256)
    × (word % 2 ^ 16 ≡ verb % 256 * 256 + command)

verb_word_fields_example : GivesWord (verb_word 0 5 0xF00 0x09) 0 5 0xF00 0x09
verb_word_fields_example =
    verb_word_fields 0 5 0xF00 0x09 (omega arith) (omega arith) (omega arith, inl (omega arith))

read_verb_response-Polls_example : Polls dead_device start (read_verb_response dead_device start)
read_verb_response-Polls_example = read_verb_response-Polls dead_device start

collect_widget_information-IsWidget_example :
    let table = (collect_widget_information ready_device codec start).0.widgets in
    (length table ≡ 64)
    × (w : Widget) × (get_elem? table 3 ≡ some w)
    × (IsWidget 3 w ⊎ (w ≡ new_widget 0))
collect_widget_information-IsWidget_example =
    collect_widget_information-IsWidget ready_device codec start 3 refl (omega arith)

set_format-RoundTrip_example :
    let r = set_format SampleRate.r44100 BitDepth.b16 2 cd_format in
    (r.0 ≡ true)
    × (get_sample_rate r.1 ≡ SampleRate.r44100)
    × (get_bit_depth r.1 ≡ BitDepth.b16)
    × (get_channels r.1 ≡ 2)
set_format-RoundTrip_example =
    set_format-RoundTrip SampleRate.r44100 BitDepth.b16 2 cd_format (omega arith) (omega arith)
      (omega arith) (omega arith)

stop_sound_runs_on_example :
    last_write 0xC0 (stop_sound codec (play_sound codec 131072 cd_format start).1).1.log
    ≡ some 0x00140002
stop_sound_runs_on_example = stop_sound_runs_on codec 131072 cd_format start (omega arith)

reset-IsReset_example : IsReset ready_device start.log (reset ready_device 10 codec start).0
reset-IsReset_example = reset-IsReset ready_device 10 0 codec start (omega arith) refl

dump-Sound_example : Sound start.log (dump (new_widget 7) start).1.log
dump-Sound_example = dump-Sound (new_widget 7) start (omega arith)

-- The device answers each query at once, and by the same word.
ready_device-Connects : Connects ready_device 7 (λ offset. 0x80000042)
unfolding verb
ready_device-Connects = record {
  answers = λ offset w.
      ap (λ r. r.0)
        (read_verb_response_ready ready_device 0 _ (omega arith) (λ i h. absurd (omega arith))
          refl);
}

collect_connections-Holds_example :
    Holds
      (λ offset. 0x80000042)
      66
      (collect_connections ready_device 3 1 (new_widget 7) start).0.connection_list
unfolding verb
collect_connections-Holds_example =
    collect_connections-Holds ready_device (λ offset. 0x80000042) 3 1 0x80000042 (new_widget 7)
      start ready_device-Connects (λ e. absurd (omega (arith, e)))
      (ap (λ r. r.0)
        (read_verb_response_ready ready_device 0 _ (omega arith) (λ i h. absurd (omega arith))
          refl))
      refl

-- What the device answers to a verb.
ready_device_answer :
    (v command : ℕ) (w : World) → (verb ready_device (u32 7) v command w).0 ≡ some 0x80000042
unfolding verb
ready_device_answer v command w =
    ap (λ r. r.0)
      (read_verb_response_ready ready_device 0 _ (omega arith) (λ i h. absurd (omega arith)) refl)

ready_device-Answers : Answers ready_device (u32 7) (λ offset. 0x80000042) 0x80000042 0x80000042
ready_device-Answers = record {
  connects = ready_device-Connects;
  reported = ready_device_answer 0xF00 0x0E;
  selected = ready_device_answer 0xF01 0x00;
  short = refl;
}

-- A selector, and the capabilities of its node.
abbrev selector : Widget
selector = new_widget 7

report_connections-collected_example :
    let c = (collect_connections ready_device (type_of 0x300100) 1 selector start).0 in
    numbers (report_connections ready_device 7 0x300100 start).1.log
    ≡ with_selection
        (type_of 0x300100)
        (length c.connection_list)
        c.selection
        (behind c.connection_list (length c.connection_list ∷ []))
report_connections-collected_example =
    report_connections-collected ready_device 7 0x300100 (λ offset. 0x80000042) 0x80000042
      0x80000042 ready_device-Answers 1 selector start start refl (λ e. absurd (omega (arith, e)))
