-- ===== src/Hda/Collect.antt =====
-- `HDACodec::collectWidgetInformation` of src/hdacodec.cpp: one pass over the 64 nodes.
pub mod Decode
pub mod Lists
pub mod Bounds
pub mod Table
pub mod Entries
use tiny_os64v.Base.{
  ℕ, zero, suc, ◌+◌, ◌*◌, ◌^◌, ◌%◌, bit_and, bit_or, List, [], ◌∷◌, Option, none, some, Bool, true,
  false, not, ◌&&◌, ltb, ◌==◌, if◌then◌else◌, ◌<<<◌, ◌>>>◌, set, length, replicate,
}
use tiny_os64v.Hda.Types.{Amp, Widget, WidgetType, Codec, new_widget, new_amp}
use tiny_os64v.Hda.World.{Platform, World, M, ◌>>=◌, ◌>>◌, pure, print}
use tiny_os64v.Hda.Verb.{verb}
use tiny_os64v.Hda.Amps.{
  value_or_0, get_supported_streams, get_output_amplifier_info, get_input_amplifier_info,
}
use tiny_os64v.Hda.Collect.Decode.{
  is_pin_complex, is_mixer, with_capabilities, with_type, with_channels, with_config, with_pin_cap,
}

-- `std::vector::resize`.
unfoldable pub resize {ℓ} : {A : Type ℓ} → ℕ → A → List A → List A
resize zero d xs = []
resize (suc n) d [] = d ∷ resize n d []
resize (suc n) d (x ∷ xs) = x ∷ resize n d xs

-- The result of a query with what is done if it has a value.
abbrev pub if_value {ℓ} : {A : Type ℓ} → Option ℕ → (ℕ → A → A) → A → A
if_value none f a = a
if_value (some v) f a = f v a

module _ (p : Platform) where
  -- The `switch` on the node type: outputs and inputs are asked for their streams.
  unfoldable pub collect_type : (node_type : ℕ) → Widget → M Widget
  collect_type node_type w =
      if ltb node_type 2
      then (do
        streams ← get_supported_streams p w.id
        pure (record (with_type node_type w) { supported_streams = streams }))
      else pure (with_type node_type w)

  -- A pin's default configuration, and its capabilities.
  unfoldable pub collect_pin : Widget → M Widget
  collect_pin w = do
    config ← verb p w.id 0xF1C 0x00
    pin_cap ← verb p w.id 0xF00 0x0C
    pure (if_value pin_cap with_pin_cap (if_value config with_config w))

  -- `data >>= 8` at the head of each round; every fourth round asks for four more entries.
  unfoldable pub next_data : ℕ → (offset word : ℕ) → Option ℕ → M (Option ℕ × ℕ)
  next_data id offset word result =
      if offset % 4 == 0
      then (do r ← verb p id 0xF02 offset; pure (r, value_or_0 r))
      else pure (result, word >>> 8)

  abbrev pub set_entry : ℕ → Option ℕ × ℕ → List ℕ → List ℕ
  set_entry offset (none, word) list = list
  set_entry offset (some r, word) list = set list offset (bit_and word 0x7F)

  -- The loop over the connection list, with `left` entries to go.
  unfoldable pub connection_loop : ℕ → (left offset word : ℕ) → Option ℕ → List ℕ → M (List ℕ)
  connection_loop id zero offset word result list = pure list
  connection_loop id (suc left) offset word result list = do
    r ← next_data id offset word result
    connection_loop id left (offset + 1) r.1 r.0 (set_entry offset r list)

  unfoldable pub collect_list : ℕ → (len long_form : ℕ) → List ℕ → Option ℕ → M (List ℕ)
  collect_list id len long_form list result =
      if long_form == 0
      then connection_loop id len 0 0 result (resize len 0 list)
      else (print "  long form (unsupported)" [] >> pure list)

  -- The entry that is selected, for all but mixers.
  unfoldable pub collect_selection : (node_type len : ℕ) → Widget → M Widget
  collect_selection node_type len w =
      if not (len == 0) && not (node_type == 2)
      then (do
        r ← verb p w.id 0xF01 0x00
        pure (if_value r (λ v w. record w { selection = bit_and v 0xFF }) w))
      else pure w

  unfoldable pub collect_length : (node_type : ℕ) → Option ℕ → Widget → M Widget
  collect_length node_type none w = pure w
  collect_length node_type (some v) w = do
    list ← collect_list w.id (bit_and v 0x7F) (bit_and (v >>> 7) 0x1) w.connection_list (some v)
    collect_selection node_type (bit_and v 0x7F) (record w { connection_list = list })

  unfoldable pub collect_connections : (node_type conn_list : ℕ) → Widget → M Widget
  collect_connections node_type conn_list w =
      if not (conn_list == 0)
      then (do r ← verb p w.id 0xF00 0x0E; collect_length node_type r w)
      else pure w

  -- The loop over the input amplifiers, `left` of them from channel `ch` on.
  unfoldable pub input_amps : ℕ → (left ch : ℕ) → M (List Amp)
  input_amps id zero ch = pure []
  input_amps id (suc left) ch = do
    amp ← get_input_amplifier_info p id ch
    amps ← input_amps id left (ch + 1)
    pure (amp ∷ amps)

  abbrev pub number_of_amps : Widget → ℕ
  number_of_amps w = if is_mixer w.type then length w.connection_list else 1

  unfoldable pub collect_input_amps : Widget → M Widget
  collect_input_amps w =
      if w.has_input_amp
      then (do amps ← input_amps w.id (number_of_amps w) 0; pure (record w { input_amps = amps }))
      else pure w

  unfoldable pub collect_output_amp : Widget → M Widget
  collect_output_amp w =
      if w.has_output_amp
      then (do amp ← get_output_amplifier_info p w.id; pure (record w { output_amp = amp }))
      else pure w

  unfoldable pub collect_pin_info : Widget → M Widget
  collect_pin_info w = if is_pin_complex w.type then collect_pin w else pure w

  -- A node that answered with capabilities.
  unfoldable pub describe : ℕ → (widget_cap : ℕ) → M Widget
  describe id cap = do
    let node_type = bit_and (cap >>> 20) 0x0F
    let conn_list = bit_and (cap >>> 8) 1
    typed ← collect_type node_type (with_capabilities cap (new_widget id))
    pin ← collect_pin_info (with_channels cap typed)
    connected ← collect_connections node_type conn_list pin
    amplified ← collect_input_amps connected
    collect_output_amp amplified

  -- What one round stores; `none` is its `continue`.
  unfoldable pub collect_widget : ℕ → Option ℕ → M (Option Widget)
  collect_widget id none = pure (some (new_widget id))
  collect_widget id (some cap) =
      if cap == 0
      then pure none
      else if cap == 0xFFFFFFFF
      then pure none
      else (do w ← describe id cap; pure (some w))

  abbrev pub store_widget : ℕ → Option Widget → List Widget → List Widget
  store_widget id none widgets = widgets
  store_widget id (some w) widgets = set widgets id w

  -- The loop over `m_widgets`, `left` rounds from node `id` on.
  unfoldable pub collect_loop : (left id : ℕ) → List Widget → M (List Widget)
  collect_loop zero id widgets = pure widgets
  collect_loop (suc left) id widgets = do
    result ← verb p id 0xF00 0x09
    m ← collect_widget id result
    collect_loop left (id + 1) (store_widget id m widgets)

  unfoldable pub collect_widget_information : Codec → M Codec
  collect_widget_information c = do
    widgets ← collect_loop 64 0 (resize 64 (new_widget 0) c.widgets)
    pure (record c { widgets = widgets })
