-- ===== src/Shell/Commands/Unmute.antt =====
-- What `cmdUnmute` of src/commands.cpp does, from its parameters to the device.
use tiny_os64v.Base.{
  ℕ, ◌<◌, List, [], ◌∷◌, ◌++◌, some, true, false, codes, u32, length, length-append, ◌≡◌, ◌≢◌, refl,
  ap, ◌∙◌, arith,
}
use tiny_os64v.Print.Format.{Arg, c_string, print}
use tiny_os64v.Print.Format as Format
use tiny_os64v.Print.Format.Render.{render, directive_text, dec_text}
use tiny_os64v.Hda.World.{Event, Platform, World, record_event}
use tiny_os64v.Hda.Amps.{value_or_0}
use tiny_os64v.Hda.Verb.Word.{send_verb_lem}
use tiny_os64v.Hda.Verb.{verb_word, read_verb_response}
use tiny_os64v.Shell.View.{View, text}
use tiny_os64v.Shell.View.Words.{IsTerminated}
use tiny_os64v.Shell.Session.{Session, pure, need, drive, ◌>>=◌, ◌>>◌}
use tiny_os64v.Shell.Commands.{cmd_unmute, widget_at, gain_setting}
use tiny_os64v.Shell.Session.{gets}
use tiny_os64v.Hda.Types.{Widget}
use tiny_os64v.Base.{bit_or, bit_and, ◌<<<◌, get_elem?}
use tiny_os64v.Shell.Commands.Params.{
  said, say_fits, length-dec_text, first_number, after_first, IsParsed, next_value-IsParsed,
}

-- The text that is printed ahead of the verbs.
abbrev echoed : (channel id gain : ℕ) → List ℕ
echoed channel id gain =
    codes "Unmuting channel "
    ++ (dec_text (u32 channel)
        ++ (codes " on node "
            ++ (dec_text (u32 id)
                ++ (codes " (gain = " ++ (dec_text (u32 gain) ++ codes ")\n\r")))))

abbrev numbers : (channel id gain : ℕ) → List Arg
numbers channel id gain = Format.word channel ∷ Format.word id ∷ Format.word gain ∷ []

echoed_lem :
    (channel id gain : ℕ)
    → render false
        (c_string "Unmuting channel %d on node %d (gain = %d)\n\r")
        (numbers channel id gain)
      ≡ some (echoed channel id gain)
unfolding render directive_text
echoed_lem channel id gain = refl

length-echoed : (channel id gain : ℕ) → length (echoed channel id gain) < 256
length-echoed channel id gain =
    let tail = codes " (gain = " ++ (dec_text (u32 gain) ++ codes ")\n\r") in
    omega (
      arith,
      length-append (dec_text (u32 channel)) (codes " on node " ++ (dec_text (u32 id) ++ tail)),
      length-append (dec_text (u32 id)) tail,
      length-append (dec_text (u32 gain)) (codes ")\n\r"),
      length-dec_text (u32 channel) (omega arith),
      length-dec_text (u32 id) (omega arith),
      length-dec_text (u32 gain) (omega arith),
    )

-- The history behind the three writes that send the verb 3 to a node.
abbrev pub sent : (id payload : ℕ) → World → World
sent id payload w = record w {
  log =
      Event.write 2 0x68 1
      ∷ Event.write 4 0x60 (u32 (verb_word 0 (u32 id) 0x0300 payload))
      ∷ Event.write 2 0x68 2
      ∷ w.log;
}

module _ (p : Platform) where
  -- What `unmute` leaves: the input amplifier of the channel is given the gain, then the output one.
  abbrev pub unmuted : (channel id gain : ℕ) → World → World
  unmuted channel id gain w =
      let printed =
        record_event
          (Event.say "Unmuting channel %d on node %d (gain = %d)\n\r" (numbers channel id gain))
          w in
      let first = sent id (u32 (bit_or (bit_or 0x7000 (bit_and channel 0xF <<< 8)) gain)) printed in
      let second = sent id (bit_or 0xB000 gain) (read_verb_response p first).1 in
      (read_verb_response p second).1

  unmutes :
      (params : View) (s : Session) (a : IsParsed params) (b : IsParsed a.rest) (w : Widget)
      → get_elem? s.codec.widgets (value_or_0 a.param) ≡ some w
      → cmd_unmute p params s
        ≡ some (
          true,
          record s {
            world = unmuted (value_or_0 b.param) (value_or_0 a.param) (gain_setting w) s.world;
          },
        )
  unfolding cmd_unmute widget_at gets need drive pure ◌>>=◌ ◌>>◌
  unmutes params s a b w found =
      let id = value_or_0 a.param in
      let channel = value_or_0 b.param in
      let gain = gain_setting w in
      let printed =
        (said "Unmuting channel %d on node %d (gain = %d)\n\r" (numbers channel id gain) s).world in
      let sides = u32 (bit_or (bit_or 0x7000 (bit_and channel 0xF <<< 8)) gain) in
      rw
        (
          a.returns,
          b.returns,
          found,
          say_fits "Unmuting channel %d on node %d (gain = %d)\n\r" (numbers channel id gain) s
              (echoed channel id gain) (echoed_lem channel id gain) (length-echoed channel id gain),
          send_verb_lem 0 (u32 id) 0x0300 sides printed,
          send_verb_lem 0 (u32 id) 0x0300 (bit_or 0xB000 gain)
              (read_verb_response p (sent id sides printed)).1,
        )
        refl

  -- On parameters with a zero behind them, where some text follows the first word, and with a widget
  -- at the node that the first word spells, `unmute` has no fault and succeeds: it sends that node two
  -- verbs, with the gain of that widget, for the channel that the second word spells and for the
  -- output, and waits for the answer to each. The codec object stays as it is.
  pub cmd_unmute_lem :
      (params : View) (s : Session) (w : Widget)
      → IsTerminated params
      → after_first (text params) ≢ []
      → get_elem? s.codec.widgets (first_number (text params)) ≡ some w
      → cmd_unmute p params s
        ≡ some (
          true,
          record s {
            world =
                unmuted
                  (first_number (after_first (text params)))
                  (first_number (text params))
                  (gain_setting w)
                  s.world;
          },
        )
  cmd_unmute_lem params s w terminated more found =
      let a = next_value-IsParsed params terminated in
      let b = next_value-IsParsed a.rest (a.next more) in
      unmutes params s a b w (ap (get_elem? s.codec.widgets) a.number ∙ found)
      ∙ ap
          (λ n.
            some
              (true, record s { world = unmuted n (value_or_0 a.param) (gain_setting w) s.world }))
          (b.number ∙ ap first_number a.remainder)
      ∙ ap
          (λ n. some (
            true,
            record s {
              world = unmuted (first_number (after_first (text params))) n (gain_setting w) s.world;
            },
          ))
          a.number
