-- ===== src/Hda/Collect/Table.antt =====
-- The table of widgets after a pass over the nodes.
use native.Mathlib.Decide.{ℕ_discrete}
use tiny_os64v.Base.{
  ℕ, zero, suc, ◌+◌, ◌<◌, List, [], ◌∷◌, Option, none, some, Bool, true, false, ◌==◌, if◌then◌else◌,
  length, get_elem?, ◌≡◌, refl, arith, ◌∙◌, length-set, ◌⊎◌, inl, inr, get_elem?-set_self,
  get_elem?-set_ne, sym, subst,
}
use tiny_os64v.Hda.Types.{Widget, new_widget, Codec}
use tiny_os64v.Hda.World.{Platform, World, M}
use tiny_os64v.Hda.Verb.{verb}
use tiny_os64v.Hda.Collect.{
  resize, collect_widget, store_widget, collect_loop, collect_widget_information,
}
use tiny_os64v.Hda.Collect.Bounds.{IsWidget, new_widget-IsWidget, describe-IsWidget}
use tiny_os64v.Hda.Collect.Lists.{length-resize}

-- What a round stores, if anything, is well formed.
abbrev Stored : ℕ → Option Widget → Type 0
Stored id none = Unit
Stored id (some w) = IsWidget id w

either :
    (id : ℕ) (b : Bool) (m k : M (Option Widget)) (v : World)
    → Stored id (m v).0
    → Stored id (k v).0
    → Stored id ((if b then m else k) v).0
either id true m k v hm hk = hm
either id false m k v hm hk = hk

collect_widget-Stored :
    (p : Platform) (id : ℕ) (r : Option ℕ) (v : World) → Stored id (collect_widget p id r v).0
unfolding collect_widget
collect_widget-Stored p id none v = new_widget-IsWidget id
collect_widget-Stored p id (some cap) v =
    either id (cap == 0) _ _ v tt
      (either id (cap == 0xFFFFFFFF) _ _ v tt (describe-IsWidget p id cap v))

-- An entry after a round is what the round stored, or what stood there before.
store-step :
    (id i : ℕ) (m : Option Widget) (widgets : List Widget) {w : Widget} (p : Platform)
    → Stored id m
    → i < length widgets
    → get_elem? (store_widget p id m widgets) i ≡ some w
    → IsWidget i w ⊎ (get_elem? widgets i ≡ some w)
store-step id i none widgets p ok lt e = inr e
store-step id i (some x) widgets {w} p ok lt e = elim (ℕ_discrete id i) [
  | yes same ↦ inl (subst (IsWidget i) (found same) (subst (λ k. IsWidget k x) same ok))
  | no other ↦ inr (sym (get_elem?-set_ne widgets id i x other) ∙ e)
]
  where
    found : id ≡ i → x ≡ w
    found same = cc (rw same at e, get_elem?-set_self widgets i x lt)

length-store :
    (p : Platform) (id : ℕ) (m : Option Widget) (widgets : List Widget)
    → length (store_widget p id m widgets) ≡ length widgets
length-store p id none widgets = refl
length-store p id (some w) widgets = length-set widgets id w

pub present : (xs : List Widget) (i : ℕ) → i < length xs → (w : Widget) × (get_elem? xs i ≡ some w)
present [] i h = elim h [ ]
present (x ∷ xs) zero h = (x, refl)
present (x ∷ xs) (suc i) h = present xs i (omega arith)

-- Entry `i` of the table: well formed for node `i`, or what stood there before.
record Entry (old : List Widget) (i : ℕ) (table : List Widget) : Type 0 where
  widget : Widget
  at : get_elem? table i ≡ some widget
  kind : IsWidget i widget ⊎ (get_elem? old i ≡ some widget)

module _ (p : Platform) where
  loop-Entry :
      (left id : ℕ) (widgets : List Widget) (v : World) (i : ℕ)
      → i < length widgets
      → Entry widgets i (collect_loop p left id widgets v).0
  unfolding collect_loop
  loop-Entry zero id widgets v i lt =
      let (w, e) = present widgets i lt in record { widget = w; at = e; kind = inr e }
  loop-Entry (suc left) id widgets v i lt =
      let r = verb p id 0xF00 0x09 v in
      let m = collect_widget p id r.0 r.1 in
      let rest =
        loop-Entry left (id + 1) (store_widget p id m.0 widgets) m.1 i
          (rw (length-store p id m.0 widgets) lt) in
      record {
        widget = rest.widget;
        at = rest.at;
        kind = elim rest.kind [
          | inl ok ↦ inl ok
          | inr old ↦ store-step id i m.0 widgets p (collect_widget-Stored p id r.0 r.1) lt old
        ];
      }

  length-loop :
      (left id : ℕ) (widgets : List Widget) (v : World)
      → length (collect_loop p left id widgets v).0 ≡ length widgets
  unfolding collect_loop
  length-loop zero id widgets v = refl
  length-loop (suc left) id widgets v = length-loop left (id + 1) _ _ ∙ length-store p id _ widgets

get_elem?-resize : (n i : ℕ) (d : Widget) → i < n → get_elem? (resize n d []) i ≡ some d
unfolding resize
get_elem?-resize zero i d h = absurd (omega arith)
get_elem?-resize (suc n) zero d h = refl
get_elem?-resize (suc n) (suc i) d h = get_elem?-resize n i d (omega arith)

-- A pass on a new object leaves 64 widgets: each is well formed for its node, or is the default
-- widget, whose identifier is 0.
pub collect_widget_information-IsWidget :
    (p : Platform) (c : Codec) (v : World) (i : ℕ)
    → c.widgets ≡ []
    → i < 64
    → let table = (collect_widget_information p c v).0.widgets in
      (length table ≡ 64)
      × (w : Widget) × (get_elem? table i ≡ some w)
      × (IsWidget i w ⊎ (w ≡ new_widget 0))
unfolding collect_widget_information
collect_widget_information-IsWidget p c v i new lt =
    let (w, e, k) = entries i lt in
    (length-loop p 64 0 start v ∙ length-resize 64 (new_widget 0) c.widgets, w, e, k)
  where
    start : List Widget
    start = resize 64 (new_widget 0) c.widgets

    entries :
        (i : ℕ)
        → i < 64
        → (w : Widget) × (get_elem? (collect_loop p 64 0 start v).0 i ≡ some w)
          × (IsWidget i w ⊎ (w ≡ new_widget 0))
    entries i lt =
        let e = loop-Entry p 64 0 start v i (rw (length-resize 64 (new_widget 0) c.widgets) lt) in
        (
          e.widget,
          e.at,
          elim e.kind [
            | inl ok ↦ inl ok
            | inr old ↦ inr (cc (old, get_elem?-resize 64 i (new_widget 0) lt))
          ],
        )
