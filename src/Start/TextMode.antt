-- ===== src/Start/TextMode.antt =====
-- `setHighResolutionTextMode` of src/main.cpp.
pub mod Highest
use tiny_os64v.Base.{ℕ, zero, suc, ◌+◌, List, [], ◌∷◌, Option, none, some, if◌then◌else◌, ltb, u64}
use tiny_os64v.Print.Format.{word}
use tiny_os64v.Hda.World.{Event, World, M, ◌>>=◌, ◌>>◌, pure, print}
use tiny_os64v.Firmware.Call.{Call}
use tiny_os64v.Firmware.{Firmware}
use tiny_os64v.Start.{call_firmware}

-- `bestMode`, `bestRows` and `bestCols`.
pub record Best : Type 0 where
  pub mode : ℕ
  pub rows : ℕ
  pub cols : ℕ

abbrev pub no_mode : Best
no_mode = record { mode = 0; rows = 0; cols = 0 }

-- The body of the loop, for a mode of `size.0` columns and `size.1` rows.
unfoldable pub better : Best → (mode : ℕ) → (size : ℕ × ℕ) → Best
better best mode size =
    if ltb best.rows size.1 then record { mode = mode; rows = size.1; cols = size.0 } else best

-- What follows the search.
unfoldable pub use_mode : Firmware → Best → M (Unit {0})
use_mode f best = do
  call_firmware (Call.set_text_mode best.mode) (λ log. f.sets_text_mode log best.mode)
  call_firmware Call.clear_screen (λ log. tt {0})
  call_firmware (Call.enable_cursor 1) (λ log. tt {0})
  print "Console: %d x %d\n\r" (word best.cols ∷ word best.rows ∷ [])

module _ (f : Firmware) where
  abbrev pub query : ℕ → M (Option (ℕ × ℕ))
  query mode = call_firmware (Call.query_text_mode mode) (λ log. f.text_mode log mode)

  -- The loop, behind the answer to the query of `mode`. The fuel bounds the rounds; `none` means
  -- that it ran out.
  unfoldable pub search_loop : (fuel mode : ℕ) → Best → Option (ℕ × ℕ) → M (Option Best)
  search_loop fuel mode best none = pure (some best)
  search_loop zero mode best (some size) = pure none
  search_loop (suc fuel) mode best (some size) = do
    answer ← query (u64 (mode + 1))
    search_loop fuel (u64 (mode + 1)) (better best mode size) answer

  unfoldable pub use_found : Option Best → M (Option Best)
  use_found none = pure none
  use_found (some best) = do use_mode f best; pure (some best)

  -- The result is the mode that is set, or `none` if the fuel ran out.
  unfoldable pub set_high_resolution_text_mode : (fuel : ℕ) → M (Option Best)
  set_high_resolution_text_mode fuel = do
    answer ← query 0
    found ← search_loop fuel 0 no_mode answer
    use_found found
