-- ===== src/Shell/Session/Keeps.antt =====
-- Commands that keep a property of the codec object.
use tiny_os64v.Base.{ℕ, List, Option, none, some, String, Bool, true, false, if◌then◌else◌, ◌>>=?◌}
use tiny_os64v.Print.Format.{Arg}
use tiny_os64v.Hda.Types.{Codec}
use tiny_os64v.Hda.World.{Event, World, M}
use tiny_os64v.Firmware.Call.{Call}
use tiny_os64v.Shell.Session.{Session, C, pure, need, drive, gets, ask, ◌>>=◌, ◌>>◌, say}

-- What holds of the codec of a result, where there is one.
abbrev pub Ends {ℓ} : {A : Type ℓ} → (Codec → Type 0) → Option (A × Session) → Type 0
Ends P none = Unit
Ends P (some r) = P r.1.codec

pub record Keeps {ℓ} {A : Type ℓ} (P : Codec → Type 0) (m : C A) : Type 0 where
  pub keeps : (s : Session) → P s.codec → Ends P (m s)

module _ {ℓ} {A : Type ℓ} (P : Codec → Type 0) where
  pub pure-Keeps : (a : A) → Keeps P (pure a)
  unfolding pure
  pure-Keeps a = record { keeps = λ s h. h }

  pub need-Keeps : (m : Option A) → Keeps P (need m)
  unfolding need
  need-Keeps none = record { keeps = λ s h. tt }
  need-Keeps (some a) = record { keeps = λ s h. h }

  pub drive-Keeps : (m : M A) → Keeps P (drive m)
  unfolding drive
  drive-Keeps m = record { keeps = λ s h. h }

  pub gets-Keeps : (f : Session → A) → Keeps P (gets f)
  unfolding gets
  gets-Keeps f = record { keeps = λ s h. h }

  pub ask-Keeps : (c : Call) (f : List Event → A) → Keeps P (ask c f)
  unfolding ask
  ask-Keeps c f = record { keeps = λ s h. h }

  pub if-Keeps : (b : Bool) (m k : C A) → Keeps P m → Keeps P k → Keeps P (if b then m else k)
  if-Keeps true m k hm hk = hm
  if-Keeps false m k hm hk = hk

after {ℓ κ} :
    {A : Type ℓ} {B : Type κ} (P : Codec → Type 0) (r : Option (A × Session)) (f : A → C B)
    → Ends P r
    → ((a : A) → Keeps P (f a))
    → Ends P (r >>=? λ x. f x.0 x.1)
after P none f h hf = tt
after P (some x) f h hf = (hf x.0).keeps x.1 h

module _ {ℓ κ} {A : Type ℓ} {B : Type κ} (P : Codec → Type 0) where
  pub bind-Keeps :
      (m : C A) (f : A → C B) → Keeps P m → ((a : A) → Keeps P (f a)) → Keeps P (m >>= f)
  unfolding ◌>>=◌
  bind-Keeps m f hm hf = record { keeps = λ s h. after P (m s) f (hm.keeps s h) hf }

  pub then-Keeps : (m : C A) (k : C B) → Keeps P m → Keeps P k → Keeps P (m >> k)
  unfolding ◌>>◌
  then-Keeps m k hm hk = record { keeps = λ s h. after P (m s) (λ a. k) (hm.keeps s h) (λ a. hk) }

said :
    (P : Codec → Type 0) (s : Session) (w : World) (r : Option (List ℕ × ℕ))
    → P s.codec
    → Ends P (r >>=? λ x. some (x.1, record s { world = w }))
said P s w none h = tt
said P s w (some x) h = h

pub say-Keeps : (P : Codec → Type 0) (fmt : String) (args : List Arg) → Keeps P (say fmt args)
unfolding say
say-Keeps P fmt args = record { keeps = λ s h. said P s _ _ h }
