-- ===== src/Shell/Report/Prints/Connections.antt =====
-- The connections that `cmdDisplayNode` of src/commands.cpp reports on a node, against those that
-- `collectWidgetInformation` of src/hdacodec.cpp stores for it.
use tiny_os64v.Base.{
  ℕ, ◌+◌, ◌/◌, ◌%◌, bit_and, List, ◌∷◌, some, Bool, true, false, not, ◌&&◌, ◌==◌, if◌then◌else◌,
  length, ◌≡◌, ◌≢◌, refl, ap, ◌∙◌, arith, Bool-cases, inl, inr, ◌>>>◌, u32,
}
use tiny_os64v.Bits.{bit_and_mask, bit_and_one}
use tiny_os64v.Hda.Types.{Widget}
use tiny_os64v.Hda.World.{Platform, World, print}
use tiny_os64v.Hda.Verb.{verb}
use tiny_os64v.Hda.Collect.{collect_selection, collect_length, collect_connections}
use tiny_os64v.Hda.Collect.Entries.{Connects, entry, collect_connections-Holds}
use tiny_os64v.Shell.Report.{report_selection, show_selection}
use tiny_os64v.Shell.Report.Node.{report_list, report_length, report_connections, type_of}
use tiny_os64v.Shell.Report.Prints.{
  numbers, behind, entries, entries_lem, verb-numbers, report_entries-numbers,
}

-- Node `id` has its connection list in the short form: it answers the query of the list's length
-- by `v`, that of the selected entry by `s`, and those of the list by `a`, whatever came before.
pub record Answers (p : Platform) (id : ℕ) (a : ℕ → ℕ) (v s : ℕ) : Type 0 where
  pub connects : Connects p id a
  pub reported : (w : World) → (verb p id 0xF00 0x0E w).0 ≡ some v
  pub selected : (w : World) → (verb p id 0xF01 0x00 w).0 ≡ some s
  pub short : v / 128 % 2 ≡ 0

-- Whether an entry is selected: in a list that is not empty, of a node that is no mixer.
abbrev selects : (node_type len : ℕ) → Bool
selects node_type len = not (len == 0) && not (node_type == 2)

-- The selected entry, printed behind `ns` where there is one.
abbrev pub with_selection : (node_type len selection : ℕ) → List ℕ → List ℕ
with_selection node_type len selection ns = if selects node_type len then selection ∷ ns else ns

module _ (p : Platform) (id : ℕ) (a : ℕ → ℕ) (v s : ℕ) (h : Answers p id a v s) where
  show_selection-numbers :
      (w : World) → numbers (show_selection p id w).1.log ≡ bit_and s 0xFF ∷ numbers w.log
  unfolding show_selection report_selection print
  show_selection-numbers w =
      rw (h.selected w) (ap (λ ns. bit_and s 0xFF ∷ ns) (verb-numbers p id 0xF01 0x00 w))

  report_list-numbers :
      (len : ℕ) (w : World)
      → numbers (report_list p id len 0 (some v) w).1.log ≡ behind (entries a 0 len) (numbers w.log)
  unfolding report_list print
  report_list-numbers len w =
      report_entries-numbers p id a h.connects len 0 0 v _ (λ k. absurd (k (omega arith)))

  collect_selection-selected :
      (node_type len : ℕ) (x : Widget) (w : World)
      → x.id ≡ id
      → selects node_type len ≡ true
      → (collect_selection p node_type len x w).0.selection ≡ bit_and s 0xFF
  unfolding collect_selection
  collect_selection-selected node_type len x w same asks = rw (asks, same, h.selected w) refl

  collect_connections-selected :
      (node_type conn_list : ℕ) (x : Widget) (w : World)
      → x.id ≡ id
      → conn_list ≢ 0
      → selects node_type (v % 128) ≡ true
      → (collect_connections p node_type conn_list x w).0.selection ≡ bit_and s 0xFF
  unfolding collect_connections collect_length
  collect_connections-selected node_type conn_list x w same listed asks =
      let has : (conn_list == 0) ≡ false = ground (arith, listed) in
      let asked : (verb p x.id 0xF00 0x0E w).0 ≡ some v = rw same (h.reported w) in
      rw (has, asked)
        (collect_selection-selected node_type (bit_and v 0x7F) _ _ same
          (ap (selects node_type) (bit_and_mask 7 v) ∙ asks))

module _ (p : Platform) (node cap : ℕ) (a : ℕ → ℕ) (v s : ℕ) (h : Answers p (u32 node) a v s) where
  report_length-numbers :
      (w : World)
      → numbers (report_length p node cap (some v) w).1.log
        ≡ with_selection
            (type_of cap)
            (v % 128)
            (bit_and s 0xFF)
            (behind (entries a 0 (v % 128)) (v % 128 ∷ numbers w.log))
  unfolding report_length print
  report_length-numbers w =
      let form : bit_and (v >>> 7) 0x1 ≡ 0 = bit_and_one (v / 128) ∙ h.short in
      rw (bit_and_mask 7 v, form)
        (elim (Bool-cases (selects (type_of cap) (v % 128))) [
          | inl asks ↦ rw asks (
              show_selection-numbers p (u32 node) a v s h _
              ∙ ap (λ ns. bit_and s 0xFF ∷ ns)
                  (report_list-numbers p (u32 node) a v s h (v % 128) _))
          | inr other ↦ rw other (report_list-numbers p (u32 node) a v s h (v % 128) _)
        ])

  report_connections-numbers :
      (w : World)
      → numbers (report_connections p node cap w).1.log
        ≡ with_selection
            (type_of cap)
            (v % 128)
            (bit_and s 0xFF)
            (behind (entries a 0 (v % 128)) (v % 128 ∷ numbers w.log))
  unfolding report_connections print
  report_connections-numbers w = rw (h.reported _) (
      report_length-numbers _
      ∙ ap
          (λ ns.
            with_selection (type_of cap) (v % 128) (bit_and s 0xFF)
              (behind (entries a 0 (v % 128)) (v % 128 ∷ ns)))
          (verb-numbers p (u32 node) 0xF00 0x0E _))

  -- On a node that has its connection list in the short form and answers each query about it
  -- alike, whatever came before, the calls of `print` with one number that the report on its
  -- connections makes print these and no other: the length of the list that
  -- `collectWidgetInformation` stores for a widget of that node and type with a connection list,
  -- the entries of that list in order, and then, if the list is not empty and the node is no
  -- mixer, the selection that is stored.
  pub report_connections-collected :
      (conn_list : ℕ) (x : Widget) (w w' : World)
      → x.id ≡ u32 node
      → conn_list ≢ 0
      → let c = (collect_connections p (type_of cap) conn_list x w').0 in
        numbers (report_connections p node cap w).1.log
        ≡ with_selection
            (type_of cap)
            (length c.connection_list)
            c.selection
            (behind c.connection_list (length c.connection_list ∷ numbers w.log))
  report_connections-collected conn_list x w w' same listed =
      let c = (collect_connections p (type_of cap) conn_list x w').0 in
      let connects : Connects p x.id a = rw same h.connects in
      let asked : (verb p x.id 0xF00 0x0E w').0 ≡ some v = rw same (h.reported w') in
      let k =
        collect_connections-Holds p a (type_of cap) conn_list v x w' connects listed asked
          h.short in
      let list : c.connection_list ≡ entries a 0 (v % 128) =
        entries_lem a 0 (v % 128) _ k.size
          (λ i lt. k.at i lt ∙ ap (λ j. some (entry a j)) {x = i} {y = 0 + i} (omega arith)) in
      report_connections-numbers w ∙ elim (Bool-cases (selects (type_of cap) (v % 128))) [
        | inl asks ↦
            rw
              (
                k.size,
                asks,
                list,
                collect_connections-selected p (u32 node) a v s h (type_of cap) conn_list x w' same
                    listed asks,
              )
              refl
        | inr other ↦ rw (k.size, other, list) refl
      ]
