-- ===== src/Shell/Session/Succeeds.antt =====
-- Commands that have no fault and leave the codec object as it is.
use tiny_os64v.Base.{Option, some, ◌≡◌, refl}
use tiny_os64v.Hda.Types.{Codec}
use tiny_os64v.Hda.World.{World, M}
use tiny_os64v.Shell.Session.{Session, C, pure, need, drive, ◌>>=◌, ◌>>◌}

abbrev pub session : Codec → World → Session
session c w = record { codec = c; world = w }

pub record Goes {ℓ} {A : Type ℓ} (c : Codec) (r : Option (A × Session)) : Type ℓ where
  pub result : A
  pub world : World
  pub returns : r ≡ some (result, session c world)

pub record Succeeds {ℓ} {A : Type ℓ} (c : Codec) (m : C A) : Type ℓ where
  pub goes : (w : World) → Goes c (m (session c w))

module _ {ℓ} {A : Type ℓ} (c : Codec) where
  pub Succeeds-result :
      (m : C A) (w : World)
      → Succeeds c m
      → (a : A) × (v : World) × (m (session c w) ≡ some (a, session c v))
  Succeeds-result m w h = let g = h.goes w in (g.result, g.world, g.returns)

  pub pure-Succeeds : (a : A) → Succeeds c (pure a)
  unfolding pure
  pure-Succeeds a = record { goes = λ w. record { result = a; world = w; returns = refl } }

  pub need-Succeeds : (m : Option A) (a : A) → m ≡ some a → Succeeds c (need m)
  unfolding need
  need-Succeeds m a e = record { goes = λ w. record { result = a; world = w; returns = rw e refl } }

  pub drive-Succeeds : (m : M A) → Succeeds c (drive m)
  unfolding drive
  drive-Succeeds m = record {
    goes = λ w. record { result = (m w).0; world = (m w).1; returns = refl };
  }

module _ {ℓ κ} {A : Type ℓ} {B : Type κ} (c : Codec) where
  pub bind-Succeeds :
      (m : C A) (f : A → C B) → Succeeds c m → ((a : A) → Succeeds c (f a)) → Succeeds c (m >>= f)
  unfolding ◌>>=◌
  bind-Succeeds m f hm hf = record {
    goes = λ w.
        let a = hm.goes w in
        let b = (hf a.result).goes a.world in
        record { result = b.result; world = b.world; returns = rw a.returns b.returns };
  }

  pub then-Succeeds : (m : C A) (k : C B) → Succeeds c m → Succeeds c k → Succeeds c (m >> k)
  unfolding ◌>>◌
  then-Succeeds m k hm hk = record {
    goes = λ w.
        let a = hm.goes w in
        let b = hk.goes a.world in
        record { result = b.result; world = b.world; returns = rw a.returns b.returns };
  }
