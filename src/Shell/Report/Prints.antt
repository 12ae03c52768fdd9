-- ===== src/Shell/Report/Prints.antt =====
-- The loop of `cmdDisplayNode` of src/commands.cpp over a connection list: the numbers it prints.
pub mod Connections
use tiny_os64v.Base.{
  ℕ, zero, suc, ◌+◌, ◌<◌, ◌%◌, List, [], ◌∷◌, Option, some, ◌==◌, length, get_elem?, ◌≡◌, refl, sym,
  ap, ap₂, ◌∙◌, arith, Bool-cases, inl, inr,
}
use tiny_os64v.Bits.{bit_and_mask}
use tiny_os64v.Print.Format.{word}
use tiny_os64v.Hda.World.{Event, Platform, World, print}
use tiny_os64v.Hda.Verb.{poll, read_verb_response, verb}
use tiny_os64v.Hda.Verb.Word.{send_verb_lem}
use tiny_os64v.Hda.Verb.Poll.{is_ready, read_status, poll_ready_now, poll_not_now}
use tiny_os64v.Hda.Collect.{next_data, collect_list}
use tiny_os64v.Hda.Collect.Entries.{
  Connects, entry, Ready, word_of, Ready-next, Takes, next_data-Takes, collect_list-Holds,
}
use tiny_os64v.Shell.Report.Node.{next_bytes, report_entry, report_entries}

-- The numbers that calls of `print` with one number print, the latest first.
abbrev pub numbers : List Event → List ℕ
numbers [] = []
numbers (Event.say fmt (word n ∷ []) ∷ log) = n ∷ numbers log
numbers (_ ∷ log) = numbers log

-- The numbers of a list, printed in order behind others.
abbrev pub behind : List ℕ → List ℕ → List ℕ
behind [] ns = ns
behind (e ∷ es) ns = behind es (e ∷ ns)

abbrev pub entries : (ℕ → ℕ) → (offset left : ℕ) → List ℕ
entries a offset zero = []
entries a offset (suc left) = entry a offset ∷ entries a (offset + 1) left

pub entries_lem :
    (a : ℕ → ℕ) (offset left : ℕ) (list : List ℕ)
    → length list ≡ left
    → ((i : ℕ) → i < left → get_elem? list i ≡ some (entry a (offset + i)))
    → list ≡ entries a offset left
entries_lem a offset zero [] size at = refl
entries_lem a offset zero (x ∷ xs) size at = absurd (omega (arith, size))
entries_lem a offset (suc left) [] size at = absurd (omega (arith, size))
entries_lem a offset (suc left) (x ∷ xs) size at =
    let first : x ≡ entry a (offset + 0) = ground (arith, at 0 (omega arith)) in
    ap₂ (λ y ys. y ∷ ys) (first ∙ ap (entry a) {x = offset + 0} {y = offset} (omega arith))
      (entries_lem a (offset + 1) left xs (omega (arith, size)) (λ i lt.
        at (suc i) (omega arith)
        ∙ ap (λ k. some (entry a k)) {x = offset + suc i} {y = offset + 1 + i} (omega arith)))

module _ (p : Platform) where
  poll-numbers : (k : ℕ) (w : World) → numbers (poll p k w).1.log ≡ numbers w.log
  unfolding poll
  poll-numbers zero w = elim (Bool-cases (is_ready p w.log)) [
    | inl ready ↦ rw (poll_ready_now p zero w ready) refl
    | inr busy ↦ rw (read_status p w, busy) refl
  ]
  poll-numbers (suc k) w = elim (Bool-cases (is_ready p w.log)) [
    | inl ready ↦ rw (poll_ready_now p (suc k) w ready) refl
    | inr busy ↦ rw (poll_not_now p k w busy) (poll-numbers k _)
  ]

  pub verb-numbers :
      (node v command : ℕ) (w : World) → numbers (verb p node v command w).1.log ≡ numbers w.log
  unfolding verb read_verb_response
  verb-numbers node v command w = rw (send_verb_lem 0 node v command w) (poll-numbers 1023 _)

  next_data-numbers :
      (node offset bytes : ℕ) (result : Option ℕ) (w : World)
      → numbers (next_data p node offset bytes result w).1.log ≡ numbers w.log
  unfolding next_data
  next_data-numbers node offset bytes result w = elim (Bool-cases (offset % 4 == 0)) [
    | inl first ↦ rw first (verb-numbers node 0xF02 offset w)
    | inr later ↦ rw later refl
  ]

  next_bytes-next_data :
      (node offset bytes : ℕ) (result : Option ℕ)
      → next_bytes p node offset bytes result ≡ next_data p node offset bytes result
  unfolding next_bytes next_data
  next_bytes-next_data node offset bytes result = refl

  -- A round's session: the data is fetched, and then an entry is printed.
  report_entry-numbers :
      (answer bytes : ℕ) (w : World)
      → numbers (report_entry (some answer) bytes w).1.log ≡ bytes % 128 ∷ numbers w.log
  unfolding report_entry print
  report_entry-numbers answer bytes w = ap (λ n. n ∷ numbers w.log) (bit_and_mask 7 bytes)

  module _ (node : ℕ) (a : ℕ → ℕ) (c : Connects p node a) where
    report_entries-suc :
        (left offset bytes answer : ℕ) (w : World)
        → (t : Takes p node a c offset (next_data p node offset bytes (some answer) w).0)
        → let w' = (next_data p node offset bytes (some answer) w).1 in
          report_entries p node (suc left) offset bytes (some answer) w
          ≡ report_entries p node left
              (offset + 1)
              (word_of a offset)
              (some t.answer)
              (report_entry (some t.answer) (word_of a offset) w').1
    unfolding report_entries
    report_entries-suc left offset bytes answer w t =
        let w' = (next_data p node offset bytes (some answer) w).1 in
        let taken : next_data p node offset bytes (some answer) w
            ≡ ((some t.answer, word_of a offset), w') =
          ap₂ (λ r x. ((r, x), w')) t.answered t.word in
        rw (next_bytes-next_data node offset bytes (some answer), taken) refl

    pub report_entries-numbers :
        (left offset bytes answer : ℕ) (w : World)
        → Ready a offset bytes
        → numbers (report_entries p node left offset bytes (some answer) w).1.log
          ≡ behind (entries a offset left) (numbers w.log)
    unfolding report_entries
    report_entries-numbers zero offset bytes answer w ready = refl
    report_entries-numbers (suc left) offset bytes answer w ready =
        let t = next_data-Takes p node a c offset bytes answer w ready in
        let w' = (next_data p node offset bytes (some answer) w).1 in
        rw (report_entries-suc left offset bytes answer w t) (
          report_entries-numbers left (offset + 1) (word_of a offset) t.answer _
            (Ready-next a offset)
          ∙ ap (behind (entries a (offset + 1) left)) (
              report_entry-numbers t.answer (word_of a offset) w'
              ∙ ap (λ ns. entry a offset ∷ ns)
                  (next_data-numbers node offset bytes (some answer) w)))
