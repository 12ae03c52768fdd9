-- ===== src/Start/TextMode/Highest.antt =====
-- The text mode that is set.
use native.Mathlib.Decide.{ℕ_discrete}
use tiny_os64v.Base.{
  ℕ, zero, suc, ◌+◌, ◌^◌, ◌<◌, ◌≤◌, List, [], ◌∷◌, Option, none, some, ltb, u64, ◌≡◌, refl, sym, ap,
  ◌∙◌, arith, ◌⊎◌, inl, inr, subst, Bool-cases, true, false,
}
use tiny_os64v.Print.Format.{word}
use tiny_os64v.Hda.World.{Event, World, print, record_event}
use tiny_os64v.Firmware.Call.{Call}
use tiny_os64v.Firmware.{Firmware}
use tiny_os64v.Start.{call_firmware}
use tiny_os64v.Start.TextMode.{
  Best, no_mode, better, use_mode, search_loop, use_found, set_high_resolution_text_mode,
}

-- What the firmware is relied on for: the size of a mode does not change, and mode `count` is the
-- first that it does not support.
pub record HasModes (f : Firmware) (size : ℕ → ℕ × ℕ) (count : ℕ) : Type 0 where
  pub supported :
      (log : List Event) (mode : ℕ) → mode < count → f.text_mode log mode ≡ some (size mode)
  pub unsupported : (log : List Event) → f.text_mode log count ≡ none

-- The first mode with the most rows among the modes below `count`, or mode 0, with no rows, if none
-- has any.
pub record IsHighest (size : ℕ → ℕ × ℕ) (count : ℕ) (b : Best) : Type 0 where
  pub highest : (m : ℕ) → m < count → (size m).1 ≤ b.rows
  pub first : (m : ℕ) → m < b.mode → (size m).1 < b.rows
  pub own :
      (b ≡ no_mode) ⊎ ((b.mode < count) × ((size b.mode).0 ≡ b.cols) × ((size b.mode).1 ≡ b.rows))

-- A property of the numbers below `suc n`.
below : (P : ℕ → Type 0) (n : ℕ) → ((m : ℕ) → m < n → P m) → P n → (m : ℕ) → m < suc n → P m
below P n h own m lt = elim (ℕ_discrete n m) [
  | yes same ↦ subst P same own
  | no other ↦ h m (omega (arith, other))
]

ltb-true : (a b : ℕ) → ltb a b ≡ true → a < b
ltb-true a b h = ground (arith, h)

ltb-false : (a b : ℕ) → ltb a b ≡ false → b ≤ a
ltb-false a b h = ground (arith, h)

better-IsHighest :
    (size : ℕ → ℕ × ℕ) (mode : ℕ) (b : Best)
    → IsHighest size mode b
    → IsHighest size (suc mode) (better b mode (size mode))
unfolding better
better-IsHighest size mode b h = elim (Bool-cases (ltb b.rows (size mode).1)) [
  | inl more ↦
      let lt = ltb-true b.rows (size mode).1 more in
      rw more (record {
        highest =
            below (λ m. (size m).1 ≤ (size mode).1) mode (λ m l. omega (arith, h.highest m l, lt))
              (omega arith);
        first = λ m l. omega (arith, h.highest m l, lt);
        own = inr (omega arith, refl, refl);
      })
  | inr no_more ↦ rw no_more (record {
    highest =
        below (λ m. (size m).1 ≤ b.rows) mode h.highest (ltb-false b.rows (size mode).1 no_more);
    first = h.first;
    own = elim h.own [
      | inl none_yet ↦ inl none_yet
      | inr (lt, cols, rows) ↦ inr (omega (arith, lt), cols, rows)
    ];
  })
]

-- The queries of `n` modes from `mode` on, the latest first, ahead of which `log` happened.
abbrev pub queries : (n mode : ℕ) → List Event → List Event
queries zero mode log = log
queries (suc n) mode log = queries n (mode + 1) (Event.call (Call.query_text_mode mode) ∷ log)

-- What follows the search, the latest first.
abbrev pub used : Best → List Event → List Event
used best log =
    Event.say "Console: %d x %d\n\r" (word best.cols ∷ word best.rows ∷ [])
    ∷ Event.call (Call.enable_cursor 1)
    ∷ Event.call Call.clear_screen
    ∷ Event.call (Call.set_text_mode best.mode)
    ∷ log

-- What the search leaves: the mode that is set, and all that it has done.
pub record SetsHighest (size : ℕ → ℕ × ℕ) (count : ℕ) (w : World) (r : Option Best × World)
    : Type 0 where
  pub best : Best
  pub found : r.0 ≡ some best
  pub is_highest : IsHighest size count best
  pub log : r.1.log ≡ used best (queries (suc count) 0 w.log)

module _ (f : Firmware) (size : ℕ → ℕ × ℕ) (count : ℕ) (h : HasModes f size count)
    (fits : count < 2 ^ 64) where
  -- How the search ends: it has queried the modes behind `mode`, up to the first that is not
  -- supported.
  record Searched (left mode : ℕ) (w : World) (r : Option Best × World) : Type 0 where
    best : Best
    found : r.0 ≡ some best
    is_highest : IsHighest size count best
    log : r.1.log ≡ queries left (mode + 1) w.log

  abbrev asked : ℕ → World → World
  asked mode w = record_event (Event.call (Call.query_text_mode mode)) w

  search_loop-suc :
      (fuel mode : ℕ) (b : Best) (w w' : World)
      → mode < count
      → search_loop f (suc fuel) mode b (f.text_mode w'.log mode) w
        ≡ search_loop f fuel
            (mode + 1)
            (better b mode (size mode))
            (f.text_mode w.log (mode + 1))
            (asked (mode + 1) w)
  unfolding search_loop call_firmware
  search_loop-suc fuel mode b w w' lt =
      let next : u64 (mode + 1) ≡ mode + 1 = omega (arith, fits, lt) in
      rw (h.supported w'.log mode lt) (
        ap (λ k. search_loop f fuel k (better b mode (size mode)) (f.text_mode w.log k) (asked k w))
          next)

  search_loop-end :
      (fuel mode : ℕ) (b : Best) (w w' : World)
      → count ≡ mode
      → IsHighest size mode b
      → Searched 0 mode w (search_loop f fuel mode b (f.text_mode w'.log mode) w)
  unfolding search_loop
  search_loop-end fuel mode b w w' last best =
      rw (ap (f.text_mode w'.log) (sym last) ∙ h.unsupported w'.log) (record {
        best = b;
        found = refl;
        is_highest = subst (λ k. IsHighest size k b) (sym last) best;
        log = refl;
      })

  search_loop-Searched :
      (left fuel mode : ℕ) (b : Best) (w w' : World)
      → mode + left ≡ count
      → left ≤ fuel
      → IsHighest size mode b
      → Searched left mode w (search_loop f fuel mode b (f.text_mode w'.log mode) w)
  search_loop-Searched zero fuel mode b w w' end enough best =
      search_loop-end fuel mode b w w' (omega (arith, end)) best
  search_loop-Searched (suc left) zero mode b w w' end enough best = absurd (omega (arith, enough))
  search_loop-Searched (suc left) (suc fuel) mode b w w' end enough best =
      let lt : mode < count = omega (arith, end) in
      let succ : suc mode ≡ mode + 1 = omega arith in
      let rest =
        search_loop-Searched left fuel (mode + 1) (better b mode (size mode)) (asked (mode + 1) w) w
          (omega (arith, end)) (omega (arith, enough))
          (subst (λ k. IsHighest size k (better b mode (size mode))) succ
            (better-IsHighest size mode b best)) in
      rw (search_loop-suc fuel mode b w w' lt) (record {
        best = rest.best;
        found = rest.found;
        is_highest = rest.is_highest;
        log = rest.log;
      })

  use_found-SetsHighest :
      (r : Option Best × World) (w : World)
      → Searched count 0 (asked 0 w) r
      → SetsHighest size count w (use_found f r.0 r.1)
  unfolding use_found use_mode call_firmware print
  use_found-SetsHighest r w s = rw s.found (record {
    best = s.best;
    found = refl;
    is_highest = s.is_highest;
    log = ap (used s.best) s.log;
  })

  -- On firmware that answers alike whenever it is asked, whose first `count` text modes are the
  -- ones that it supports ahead of the first that it does not, `count` rounds are enough for the
  -- search: each mode up to that one is queried once, in order, and then the first mode with the
  -- most rows is set, or mode 0 if no mode has any row, the screen is cleared, the cursor is enabled,
  -- and the size of that mode is printed.
  pub set_high_resolution_text_mode-SetsHighest :
      (fuel : ℕ) (w : World)
      → count ≤ fuel
      → SetsHighest size count w (set_high_resolution_text_mode f fuel w)
  unfolding set_high_resolution_text_mode call_firmware
  set_high_resolution_text_mode-SetsHighest fuel w enough = use_found-SetsHighest _ w (
      search_loop-Searched count fuel 0 no_mode (asked 0 w) w (omega arith) enough (record {
        highest = λ m l. absurd (omega (arith, l));
        first = λ m l. absurd (omega (arith, l));
        own = inl refl;
      }))
