-- ===== src/Shell/Session.antt =====
-- What a command runs in: the codec object and the history, and the faults of C++ as `none`.
pub mod Keeps
pub mod Succeeds
use tiny_os64v.Base.{ℕ, List, ◌∷◌, Option, none, some, String, ◌>>=?◌, replicate}
use tiny_os64v.Print.Format.{Arg, c_string, print}
use tiny_os64v.Hda.Types.{Codec, Widget}
use tiny_os64v.Hda.World.{Event, World, M, record_event}
use tiny_os64v.Firmware.Call.{Call}

pub record Session : Type 0 where
  pub codec : Codec
  pub world : World

abbrev pub C {ℓ} : Type ℓ → Type ℓ
C A = Session → Option (A × Session)

module _ {ℓ} {A : Type ℓ} where
  unfoldable pub pure : A → C A
  pure a s = some (a, s)

  -- A result that a fault may stand in for.
  unfoldable pub need : Option A → C A
  need m s = m >>=? λ a. some (a, s)

  -- An operation of the driver. Its calls of `print` are in the history and are not run here.
  unfoldable pub drive : M A → C A
  drive m s = let (a, w) = m s.world in some (a, record s { world = w })

  -- What is read from the session.
  unfoldable pub gets : (Session → A) → C A
  gets f s = some (f s, s)

  -- What is read from the history ahead of a call of the firmware.
  unfoldable pub ask : Call → (List Event → A) → C A
  ask c f s = some (f s.world.log, record s { world = record_event (Event.call c) s.world })

module _ {ℓ κ} {A : Type ℓ} {B : Type κ} where
  infixl 5 ◌>>=◌ ◌>>◌
  unfoldable pub ◌>>=◌ : C A → (A → C B) → C B
  ◌>>=◌ m f s = m s >>=? λ r. f r.0 r.1

  unfoldable pub ◌>>◌ : C A → C B → C B
  ◌>>◌ m k s = m s >>=? λ r. k r.1

-- `print`, with the count that it returns: a fault of its arguments, or a text that does not fit its
-- array, is a fault of the command.
unfoldable pub say : String → List Arg → C ℕ
say fmt args s = print (replicate 256 0) (c_string fmt) args >>=? λ r.
    some (r.1, record s { world = record_event (Event.say fmt args) s.world })

unfoldable pub set_widgets : List Widget → C (Unit {0})
set_widgets ws s = some (tt, record s { codec = record s.codec { widgets = ws } })
