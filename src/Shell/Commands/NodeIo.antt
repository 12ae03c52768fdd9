-- ===== src/Shell/Commands/NodeIo.antt =====
-- What `cmdNodeIO` of src/commands.cpp does, from its parameters to the device.
use tiny_os64v.Base.{
  ℕ, ◌<◌, List, [], ◌∷◌, ◌++◌, Option, none, some, Bool, true, false, codes, u32, length,
  length-append, ◌≡◌, ◌≢◌, refl, ap, ◌∙◌, arith,
}
use tiny_os64v.Print.Format.{Arg, c_string, print}
use tiny_os64v.Print.Format as Format
use tiny_os64v.Print.Format.Render.{render, directive_text, dec_text}
use tiny_os64v.Print.Hex.{hex_text, length-hex_text}
use tiny_os64v.Hda.World.{Event, Platform, World, record_event}
use tiny_os64v.Hda.Amps.{value_or_0}
use tiny_os64v.Hda.Verb.Word.{send_verb_lem}
use tiny_os64v.Hda.Verb.{verb_word, read_verb_response}
use tiny_os64v.Shell.View.{View, text}
use tiny_os64v.Shell.View.Words.{IsTerminated}
use tiny_os64v.Shell.Session.{Session, pure, need, drive, ◌>>=◌, ◌>>◌}
use tiny_os64v.Shell.Commands.{report_response, cmd_node_io}
use tiny_os64v.Shell.Commands.Params.{
  said, say_fits, length-dec_text, first_number, after_first, IsParsed, next_value-IsParsed,
}

-- The text that is printed ahead of the verb.
abbrev echoed : (id verb payload : ℕ) → List ℕ
echoed id verb payload =
    codes "NodeIO: "
    ++ (dec_text (u32 id)
        ++ (codes " verb: "
            ++ (hex_text 8 (u32 verb)
                ++ (codes "  payload " ++ (hex_text 8 (u32 payload) ++ codes "\n\r")))))

abbrev numbers : (id verb payload : ℕ) → List Arg
numbers id verb payload = Format.word id ∷ Format.word verb ∷ Format.word payload ∷ []

echoed_lem :
    (id verb payload : ℕ)
    → render false (c_string "NodeIO: %d verb: %x  payload %x\n\r") (numbers id verb payload)
      ≡ some (echoed id verb payload)
unfolding render directive_text
echoed_lem id verb payload = refl

length-echoed : (id verb payload : ℕ) → length (echoed id verb payload) < 256
length-echoed id verb payload =
    let head = length-append (dec_text (u32 id)) (
      codes " verb: "
      ++ (hex_text 8 (u32 verb)
          ++ (codes "  payload " ++ (hex_text 8 (u32 payload) ++ codes "\n\r")))) in
    let middle =
      length-append (hex_text 8 (u32 verb))
        (codes "  payload " ++ (hex_text 8 (u32 payload) ++ codes "\n\r")) in
    let tail = length-append (hex_text 8 (u32 payload)) (codes "\n\r") in
    omega (
      arith,
      head,
      middle,
      tail,
      length-hex_text 8 (u32 verb),
      length-hex_text 8 (u32 payload),
      length-dec_text (u32 id) (omega arith),
    )

-- What is printed of the answer.
abbrev pub answer : Option ℕ → Event
answer (some r) = Event.say "  retuned: %x\n\r" (Format.word r ∷ [])
answer none = Event.say "  ** no response! **\n\r" []

report_response_lem :
    (r : Option ℕ) (s : Session)
    → (n : ℕ) × (report_response r s
        ≡ some (n, record s { world = record_event (answer r) s.world }))
unfolding report_response render directive_text
report_response_lem none s = (_, say_fits "  ** no response! **\n\r" [] s _ refl (omega arith))
report_response_lem (some r) s =
    let t = codes "  retuned: " ++ (hex_text 8 (u32 r) ++ codes "\n\r") in
    let tail = length-append (hex_text 8 (u32 r)) (codes "\n\r") in
    (
      _,
      say_fits "  retuned: %x\n\r" (Format.word r ∷ []) s t refl
          (omega (arith, tail, length-hex_text 8 (u32 r))),
    )

-- The history behind the three writes that send a verb, and what is printed ahead of it.
abbrev pub asked : (id verb payload : ℕ) → World → World
asked id verb payload w = record w {
  log =
      Event.write 2 0x68 1
      ∷ Event.write 4 0x60 (u32 (verb_word 0 (u32 id) (u32 verb) (u32 payload)))
      ∷ Event.write 2 0x68 2
      ∷ Event.say "NodeIO: %d verb: %x  payload %x\n\r" (numbers id verb payload)
      ∷ w.log;
}

module _ (p : Platform) where
  -- What `nodeio` leaves for three numbers.
  abbrev pub node_io : (id verb payload : ℕ) → Session → Option (Bool × Session)
  node_io id verb payload s =
      let r = read_verb_response p (asked id verb payload s.world) in
      some (true, record s { world = record_event (answer r.0) r.1 })

  sent :
      (params : View) (s : Session) (a : IsParsed params) (b : IsParsed a.rest)
      (c : IsParsed b.rest)
      → cmd_node_io p params s
        ≡ node_io (value_or_0 a.param) (value_or_0 b.param) (value_or_0 c.param) s
  unfolding cmd_node_io need drive pure ◌>>=◌ ◌>>◌
  sent params s a b c =
      let id = value_or_0 a.param in
      let verb = value_or_0 b.param in
      let payload = value_or_0 c.param in
      let r = read_verb_response p (asked id verb payload s.world) in
      rw
        (
          a.returns,
          b.returns,
          c.returns,
          say_fits "NodeIO: %d verb: %x  payload %x\n\r" (numbers id verb payload) s
              (echoed id verb payload) (echoed_lem id verb payload) (length-echoed id verb payload),
          send_verb_lem 0 (u32 id) (u32 verb) (u32 payload)
              (said "NodeIO: %d verb: %x  payload %x\n\r" (numbers id verb payload) s).world,
          (report_response_lem r.0 (record s { world = r.1 })).1,
        )
        refl

  -- On parameters with a zero behind them, where some text follows the first word and the second,
  -- `nodeio` has no fault and succeeds: it sends the one verb that the first three words spell, 0 for
  -- a word that is missing or no number, to that node, and prints the answer that the device gives to
  -- it, or that there is none. The codec object stays as it is.
  pub cmd_node_io_lem :
      (params : View) (s : Session)
      → IsTerminated params
      → after_first (text params) ≢ []
      → after_first (after_first (text params)) ≢ []
      → let rest = after_first (text params) in
        cmd_node_io p params s
        ≡ node_io
            (first_number (text params))
            (first_number rest)
            (first_number (after_first rest))
            s
  cmd_node_io_lem params s terminated more more' =
      let a = next_value-IsParsed params terminated in
      let b = next_value-IsParsed a.rest (a.next more) in
      let c = next_value-IsParsed b.rest (b.next (rw a.remainder more')) in
      sent params s a b c
      ∙ ap (λ n. node_io n (value_or_0 b.param) (value_or_0 c.param) s) a.number
      ∙ ap (λ n. node_io (first_number (text params)) n (value_or_0 c.param) s)
          (b.number ∙ ap first_number a.remainder)
      ∙ ap (node_io_of (text params))
          (c.number ∙ ap first_number (b.remainder ∙ ap after_first a.remainder))
    where
      node_io_of : List ℕ → ℕ → Option (Bool × Session)
      node_io_of t n = node_io (first_number t) (first_number (after_first t)) n s
