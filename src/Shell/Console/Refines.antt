-- ===== src/Shell/Console/Refines.antt =====
-- The console refines the line editor.
use native.Mathlib.Decide.{ℕ_discrete}
use tiny_os64v.Base.{
  ℕ, zero, suc, List, [], Option, none, some, Bool, true, false, if◌then◌else◌, ◌==◌, ◌>>=?◌,
  Option-cases, inl, inr, ◌≡◌, ◌≢◌, refl, sym, ap, ◌∙◌, arith,
}
use tiny_os64v.Hda.World.{Platform}
use tiny_os64v.Firmware.{Firmware}
use tiny_os64v.Shell.Session.{Session, pure, need, ask, ◌>>=◌, ◌>>◌, say}
use tiny_os64v.Shell.Console.{
  Console, enter_key, edit_line, echo, wait_for_key, read_key, get_key, run_line, enter, type_key,
  press, console_loop,
}
use tiny_os64v.Shell.Console.Edit.{edit, Outcome, Runs}
use tiny_os64v.Shell.Console.Line.{
  Refines, store_byte-some, edit_line-Refines, entered_line, entered_line-IsTerminated,
  entered_line-text, emptied, emptied-Refines,
}

module _ {ℓ} {A B D : Type ℓ} where
  bind_assoc :
      (m : Option A) (f : A → Option B) (g : B → Option D)
      → (m >>=? f >>=? g) ≡ (m >>=? λ a. f a >>=? g)
  bind_assoc none f g = refl
  bind_assoc (some a) f g = refl

module _ (p : Platform) (f : Firmware) (fuel : ℕ) where
  enter_lem :
      (c : Console) (line : List ℕ) (s : Session)
      → Refines c line
      → enter p f fuel c s
        ≡ ((say "\n\r" [] >> run_line p f fuel (entered_line c)) s >>=? λ r. some (emptied c, r.1))
  unfolding enter ◌>>=◌ ◌>>◌ need pure
  enter_lem c line s r =
      rw (store_byte-some c.buffer c.index 0 (omega (arith, r.size, r.fits)))
        (sym (search bind_assoc))

  -- What agrees with an outcome of the editor.
  abbrev pub Agrees : Option (Console × Session) → Outcome → Type 0
  Agrees none none = Unit
  Agrees none (some b) = ⊥
  Agrees (some a) none = ⊥
  Agrees (some a) (some b) = Refines a.0 b.0 × (a.1 ≡ b.1)

  read_or_none :
      (ready : Bool) (s : Session)
      → (r : Option ℕ × Session) × ((if ready then read_key f else pure none) s ≡ some r)
  unfolding read_key ask pure
  read_or_none true s = (_, refl)
  read_or_none false s = (_, refl)

  get_key-some : (s : Session) → (r : Option ℕ × Session) × (get_key f s ≡ some r)
  unfolding get_key wait_for_key ask ◌>>=◌
  get_key-some s = read_or_none _ _

  press_lem :
      (n : ℕ) (c : Console) (s s' : Session) (key : Option ℕ) (x : Option (Console × Session))
      → get_key f s ≡ some (key, s')
      → press p f fuel c key s' ≡ x
      → console_loop p f fuel (suc n) c s ≡ (x >>=? λ r. console_loop p f fuel n r.0 r.1)
  unfolding console_loop ◌>>=◌
  press_lem n c s s' key x got pressed = rw got (rw pressed refl)

  press-idle : (c : Console) (s : Session) → press p f fuel c none s ≡ some (c, s)
  unfolding press pure
  press-idle c s = refl

  press-enter :
      (c : Console) (line : List ℕ) (s : Session)
      → Refines c line
      → press p f fuel c (some enter_key) s
        ≡ ((say "\n\r" [] >> run_line p f fuel (entered_line c)) s >>=? λ r. some (emptied c, r.1))
  unfolding press
  press-enter c line s r = enter_lem c line s r

  press-type :
      (c c' : Console) (key : ℕ) (s s' : Session)
      → key ≢ enter_key
      → echo key s ≡ some (tt, s')
      → edit_line c key ≡ some c'
      → press p f fuel c (some key) s ≡ some (c', s')
  unfolding press type_key need ◌>>◌
  press-type c c' key s s' other echoed edited =
      rw (not_equal key enter_key other) (rw echoed (rw edited refl))
    where
      not_equal : (a b : ℕ) → a ≢ b → (a == b) ≡ false
      not_equal a b h = ground (arith, h)

  echo-some : (key : ℕ) (s : Session) → (s' : Session) × (echo key s ≡ some (tt, s'))
  unfolding echo ask
  echo-some key s = (_, refl)

  abbrev Follows : ℕ → Console → List ℕ → Session → Type 0
  Follows n c line s =
      (r : Outcome) × Runs p f fuel n line s r × Agrees (console_loop p f fuel n c s) r

  module _ (n : ℕ) (c : Console) (line : List ℕ) (s s' : Session) (r : Refines c line)
      (ih : (c : Console) (line : List ℕ) (s : Session) → Refines c line → Follows n c line s) where
    round-idle : get_key f s ≡ some (none, s') → Follows (suc n) c line s
    round-idle got =
        let (o, runs, agrees) = ih c line s' r in
        (
          o,
          Runs.no_key n line s s' o got runs,
          rw (press_lem n c s s' _ _ got (press-idle c s')) agrees,
        )

    round-type :
        (key : ℕ) → get_key f s ≡ some (some key, s') → key ≢ enter_key → Follows (suc n) c line s
    round-type key got other =
        let (s'', echoed) = echo-some key s' in
        let (c', edited, r') = edit_line-Refines c key line r in
        let (o, runs, agrees) = ih c' (edit line key) s'' r' in
        (
          o,
          Runs.typed n key line s s' s'' o got other echoed runs,
          rw (press_lem n c s s' _ _ got (press-type c c' key s' s'' other echoed edited)) agrees,
        )

    round-enter : get_key f s ≡ some (some enter_key, s') → Follows (suc n) c line s
    round-enter got =
        let terminated = entered_line-IsTerminated c line r in
        let same = entered_line-text c line r in
        elim (Option-cases ((say "\n\r" [] >> run_line p f fuel (entered_line c)) s')) [
          | inl fault ↦ (
            none,
            Runs.faulted n line (entered_line c) s s' got same terminated fault,
            rw (press_lem n c s s' _ _ got (press-enter c line s' r), fault) tt,
          )
          | inr (x, ran) ↦
              let (o, runs, agrees) = ih (emptied c) [] x.1 (emptied-Refines c line r) in
              (
                o,
                Runs.entered n line (entered_line c) s s' x.1 o got same terminated ran runs,
                rw (press_lem n c s s' _ _ got (press-enter c line s' r), ran) agrees,
              )
        ]

    round : (key : Option ℕ) → get_key f s ≡ some (key, s') → Follows (suc n) c line s
    round none got = round-idle got
    round (some key) got = elim (ℕ_discrete key enter_key) [
      | yes same ↦ round-enter (got ∙ ap (λ k. some (some k, s')) same)
      | no other ↦ round-type key got other
    ]

  -- From a buffer that holds a line, the console's loop does, in any number of rounds, what the line
  -- editor does on that line: it has a fault only where a command that Enter runs has one, and else
  -- ends in the session that the editor ends in, with the editor's line in its buffer and room for
  -- a zero behind it. Each command runs on a view of the line, with a zero behind it.
  pub console_loop-Refines :
      (n : ℕ) (c : Console) (line : List ℕ) (s : Session)
      → Refines c line
      → (r : Outcome) × Runs p f fuel n line s r × Agrees (console_loop p f fuel n c s) r
  unfolding console_loop pure
  console_loop-Refines zero c line s r = (some (line, s), Runs.ended line s, (r, refl))
  console_loop-Refines (suc n) c line s r =
      let (key, got) = get_key-some s in round n c line s key.1 r (console_loop-Refines n) key.0 got
