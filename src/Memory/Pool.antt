-- ===== src/Memory/Pool.antt =====
-- `operator new` and `operator delete` of src/allocator.cpp.
use tiny_os64v.Base.{ℕ, [], Option, none, some}
use tiny_os64v.Hda.World.{M, ◌>>=◌, ◌>>◌, pure, print}
use tiny_os64v.Firmware.Call.{Call}
use tiny_os64v.Firmware.{Firmware}
use tiny_os64v.Start.{call_firmware}

-- `std::__throw_bad_alloc`: a message and an endless loop, which is `none`.
unfoldable pub throw_bad_alloc : M (Option ℕ)
throw_bad_alloc = do print "!! BAD ALLOC!\n\r" []; pure none

unfoldable pub check_pool : Option ℕ → M (Option ℕ)
check_pool (some address) = pure (some address)
check_pool none = throw_bad_alloc

-- The address of `size` bytes from the firmware's pool.
unfoldable pub operator_new : Firmware → (size : ℕ) → M (Option ℕ)
operator_new f size = do
  address ← call_firmware (Call.allocate_pool size) (λ log. f.pool log size)
  check_pool address

unfoldable pub operator_delete : (address : ℕ) → M (Unit {0})
operator_delete address = call_firmware (Call.free_pool address) (λ log. tt)
