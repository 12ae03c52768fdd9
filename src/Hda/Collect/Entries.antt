-- ===== src/Hda/Collect/Entries.antt =====
-- Which nodes the connection lists of `collectWidgetInformation` hold.
use tiny_os64v.Base.{
  ℕ, zero, suc, ◌+◌, ◌-◌, ◌*◌, ◌/◌, ◌^◌, ◌%◌, ◌<◌, ◌≤◌, bit_and, List, Option, none, some, false,
  not, ◌&&◌, ◌==◌, set, length, get_elem?, ◌≡◌, ◌≢◌, refl, sym, ap, ap₂, ◌∙◌, arith, Bool-cases,
  length-set, get_elem?-set_self, get_elem?-set_ne, lt_or_le, inl, inr, ◌>>>◌,
}
use tiny_os64v.Bits.{bit_and_mask, bit_and_one}
use tiny_os64v.Hda.Types.{Widget}
use tiny_os64v.Hda.World.{Platform, World}
use tiny_os64v.Hda.Verb.{verb}
use tiny_os64v.Hda.Collect.{
  if_value, resize, next_data, connection_loop, collect_list, collect_selection, collect_length,
  collect_connections,
}
use tiny_os64v.Hda.Collect.Lists.{length-resize}

-- Node `id` answers each query of its connection list, whatever happened before: the query at
-- `offset` with `a offset`.
pub record Connects (p : Platform) (id : ℕ) (a : ℕ → ℕ) : Type 0 where
  pub answers : (offset : ℕ) (w : World) → (verb p id 0xF02 offset w).0 ≡ some (a offset)

-- Entry `i` of a list whose answers hold four entries each: the low seven bits of byte `i % 4`.
abbrev pub entry : (ℕ → ℕ) → ℕ → ℕ
entry a i = a (i - i % 4) / 2 ^ (8 * (i % 4)) % 128

-- The word in hand ahead of round `offset`: the last answer, less the bytes used but the last one.
abbrev pub Ready : (ℕ → ℕ) → (offset word : ℕ) → Type 0
Ready a offset word = offset % 4 ≢ 0 → word ≡ a (offset - offset % 4) / 2 ^ (8 * (offset % 4 - 1))

-- The word of round `offset`.
abbrev pub word_of : (ℕ → ℕ) → ℕ → ℕ
word_of a offset = a (offset - offset % 4) / 2 ^ (8 * (offset % 4))

next_byte : (k x : ℕ) → k ≢ 0 → k < 4 → x / 2 ^ (8 * (k - 1)) / 2 ^ 8 ≡ x / 2 ^ (8 * k)
next_byte zero x h lt = absurd (h refl)
next_byte (suc zero) x h lt = omega arith
next_byte (suc (suc zero)) x h lt = omega arith
next_byte (suc (suc (suc zero))) x h lt = omega arith
next_byte (suc (suc (suc (suc k)))) x h lt = absurd (omega arith)

-- Byte `k` of the answer to the query at `i`.
byte_of : (a : ℕ → ℕ) (i j k l : ℕ) → i ≡ j → k ≡ l → a i / 2 ^ (8 * k) ≡ a j / 2 ^ (8 * l)
byte_of a i j k l e h = ap₂ (λ i k. a i / 2 ^ (8 * k)) e h

first_byte : (a : ℕ → ℕ) (offset : ℕ) → offset % 4 ≡ 0 → a offset ≡ word_of a offset
first_byte a offset e =
    omega (arith, byte_of a offset (offset - offset % 4) 0 (offset % 4) (omega arith) (sym e))

pub Ready-next : (a : ℕ → ℕ) (offset : ℕ) → Ready a (offset + 1) (word_of a offset)
Ready-next a offset h =
    byte_of a (offset - offset % 4) (offset + 1 - (offset + 1) % 4) (offset % 4)
      ((offset + 1) % 4 - 1) (omega (arith, h)) (omega (arith, h))

module _ (p : Platform) (id : ℕ) (a : ℕ → ℕ) (c : Connects p id a) where
  -- What a round takes its entry from.
  pub record Takes (offset : ℕ) (r : Option ℕ × ℕ) : Type 0 where
    pub answer : ℕ
    pub answered : r.0 ≡ some answer
    pub word : r.1 ≡ word_of a offset

  pub next_data-Takes :
      (offset word answer : ℕ) (w : World)
      → Ready a offset word
      → Takes offset (next_data p id offset word (some answer) w).0
  unfolding next_data
  next_data-Takes offset word answer w ready = elim (Bool-cases (offset % 4 == 0)) [
    | inl first ↦
        rw (first, c.answers offset w)
          (record {
            answer = a offset;
            answered = refl;
            word = first_byte a offset (ground (arith, first));
          })
    | inr later ↦
        let h : offset % 4 ≢ 0 = λ e. ground (arith, e, later) in
        rw later (record {
          answer = answer;
          answered = refl;
          word = ap (λ x. x / 2 ^ 8) (ready h) ∙ next_byte (offset % 4) _ h (omega arith);
        })
  ]

  -- What the loop makes of `list` from round `offset` on, with `left` rounds to go.
  record Fills (offset left : ℕ) (list r : List ℕ) : Type 0 where
    size : length r ≡ length list
    before : (i : ℕ) → i < offset → get_elem? r i ≡ get_elem? list i
    filled : (i : ℕ) → offset ≤ i → i < offset + left → get_elem? r i ≡ some (entry a i)

  set-Fills :
      (offset left : ℕ) (list r : List ℕ)
      → offset < length list
      → Fills (offset + 1) left (set list offset (entry a offset)) r
      → Fills offset (suc left) list r
  set-Fills offset left list r lt f = record {
    size = f.size ∙ length-set list offset (entry a offset);
    before = λ i h.
        f.before i (omega arith)
        ∙ get_elem?-set_ne list offset i (entry a offset) (λ e. absurd (omega (arith, e)));
    filled = λ i ge lt'. elim (lt_or_le offset i) [
      | inl more ↦ f.filled i (omega arith) (omega arith)
      | inr same ↦
          let e : i ≡ offset = omega arith in
          ap (get_elem? r) e
          ∙ f.before offset (omega arith)
          ∙ get_elem?-set_self list offset (entry a offset) lt
          ∙ ap (λ k. some (entry a k)) (sym e)
    ];
  }

  -- A round, with what it takes its entry from.
  connection_loop-suc :
      (left offset word answer : ℕ) (list : List ℕ) (w : World)
      → (t : Takes offset (next_data p id offset word (some answer) w).0)
      → connection_loop p id (suc left) offset word (some answer) list w
        ≡ connection_loop p id left
            (offset + 1)
            (word_of a offset)
            (some t.answer)
            (set list offset (entry a offset))
            (next_data p id offset word (some answer) w).1
  unfolding connection_loop
  connection_loop-suc left offset word answer list w t =
      let w' = (next_data p id offset word (some answer) w).1 in
      let taken : next_data p id offset word (some answer) w
          ≡ ((some t.answer, word_of a offset), w') =
        ap₂ (λ r x. ((r, x), w')) t.answered t.word in
      rw (taken, bit_and_mask 7 (word_of a offset)) refl

  connection_loop-Fills :
      (left offset word answer : ℕ) (list : List ℕ) (w : World)
      → Ready a offset word
      → offset + left ≤ length list
      → Fills offset left list (connection_loop p id left offset word (some answer) list w).0
  unfolding connection_loop
  connection_loop-Fills zero offset word answer list w ready fits = record {
    size = refl;
    before = λ i h. refl;
    filled = λ i ge lt. absurd (omega arith);
  }
  connection_loop-Fills (suc left) offset word answer list w ready fits =
      let t = next_data-Takes offset word answer w ready in
      set-Fills offset left list _ (omega arith) (
        rw (connection_loop-suc left offset word answer list w t) (
          connection_loop-Fills left (offset + 1) _ t.answer (set list offset (entry a offset)) _
            (Ready-next a offset) (omega (arith, length-set list offset (entry a offset)))))

-- A list of `n` entries.
pub record Holds (a : ℕ → ℕ) (n : ℕ) (list : List ℕ) : Type 0 where
  pub size : length list ≡ n
  pub at : (i : ℕ) → i < n → get_elem? list i ≡ some (entry a i)

selected-same :
    (r : Option ℕ) (x : Widget)
    → (if_value r (λ v w. record w { selection = bit_and v 0xFF }) x).connection_list
      ≡ x.connection_list
selected-same none x = refl
selected-same (some v) x = refl

module _ (p : Platform) (a : ℕ → ℕ) where
  pub collect_list-Holds :
      (id len answer : ℕ) (list : List ℕ) (w : World)
      → Connects p id a
      → Holds a len (collect_list p id len 0 list (some answer) w).0
  unfolding collect_list
  collect_list-Holds id len answer list w c =
      let sized = length-resize len 0 list in
      let f =
        connection_loop-Fills p id a c len 0 0 answer (resize len 0 list) w
          (λ h. absurd (h (omega arith))) (omega (arith, sized)) in
      record { size = f.size ∙ sized; at = λ i lt. f.filled i (omega arith) (omega arith) }

  collect_selection-same :
      (node_type len : ℕ) (x : Widget) (w : World)
      → (collect_selection p node_type len x w).0.connection_list ≡ x.connection_list
  unfolding collect_selection
  collect_selection-same node_type len x w =
      elim (Bool-cases (not (len == 0) && not (node_type == 2))) [
        | inl asked ↦ rw asked (selected-same (verb p x.id 0xF01 0x00 w).0 x)
        | inr other ↦ rw other refl
      ]

  collect_length-Holds :
      (node_type v : ℕ) (x : Widget) (w : World)
      → Connects p x.id a
      → v / 128 % 2 ≡ 0
      → Holds a (v % 128) (collect_length p node_type (some v) x w).0.connection_list
  unfolding collect_length
  collect_length-Holds node_type v x w c short =
      let form : bit_and (v >>> 7) 0x1 ≡ 0 = bit_and_one (v / 128) ∙ short in
      rw (collect_selection-same node_type (bit_and v 0x7F) _ _, form, bit_and_mask 7 v)
        (collect_list-Holds x.id (v % 128) v x.connection_list w c)

  -- On a node that reports a connection list in the short form, and answers each query of it by four
  -- entries, whatever came before, the list that is collected has as many entries as the node
  -- reports, and entry `i` is the low seven bits of byte `i % 4` of the answer to the query at the
  -- multiple of four below `i`.
  pub collect_connections-Holds :
      (node_type conn_list v : ℕ) (x : Widget) (w : World)
      → Connects p x.id a
      → conn_list ≢ 0
      → (verb p x.id 0xF00 0x0E w).0 ≡ some v
      → v / 128 % 2 ≡ 0
      → Holds a (v % 128) (collect_connections p node_type conn_list x w).0.connection_list
  unfolding collect_connections
  collect_connections-Holds node_type conn_list v x w c listed reported short =
      let has : (conn_list == 0) ≡ false = ground (arith, listed) in
      rw (has, reported) (collect_length-Holds node_type v x _ c short)
