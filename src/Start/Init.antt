-- ===== src/Start/Init.antt =====
-- `efi_init` of src/main.cpp, up to the code under `#if 0` and the endless loop behind it.
use tiny_os64v.Base.{ℕ, [], String, Option, none, some}
use tiny_os64v.Hda.World.{M, ◌>>=◌, ◌>>◌, pure, print}
use tiny_os64v.Firmware.Call.{Call}
use tiny_os64v.Firmware.{Firmware}
use tiny_os64v.Start.{call_firmware}
use tiny_os64v.Start.TextMode.{Best, set_high_resolution_text_mode}

-- `greeting` is the text that the compiler makes with the date and the time.
unfoldable pub greet : (greeting : String) → Option Best → M (Option Best)
greet greeting none = pure none
greet greeting (some best) = do
  print greeting []
  call_firmware (Call.set_watchdog 0) (λ log. tt {0})
  print "Watchdog disabled!\n\r" []
  pure (some best)

-- The result is the text mode, or `none` if the fuel of its search ran out.
unfoldable pub efi_init : Firmware → (fuel : ℕ) (greeting : String) → M (Option Best)
efi_init f fuel greeting = do best ← set_high_resolution_text_mode f fuel; greet greeting best
