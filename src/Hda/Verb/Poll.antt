-- ===== src/Hda/Verb/Poll.antt =====
-- What `readVerbResponse` does: at most 1024 reads of the status register.
use tiny_os64v.Base.{
  ℕ, zero, suc, ◌≤◌, ◌<◌, bit_and, List, ◌∷◌, none, some, Bool, true, false, codes, ◌==◌, u16, u32,
  ◌≡◌, refl, ap, ◌∙◌, arith, Option, ◌⊎◌, inl, inr, Bool-cases, lt_or_le,
}
use tiny_os64v.Helpers.{strncmp_chars}
use tiny_os64v.Hda.Regs.{regs, find_reg, get_reg}
use tiny_os64v.Hda.World.{Event, Platform, World, read16, read32}
use tiny_os64v.Hda.Verb.{read_found, read_reg, poll, read_verb_response}

-- The history after `j` reads of the status register.
abbrev pub polled : ℕ → List Event → List Event
polled zero log = log
polled (suc j) log = polled j (Event.read 2 0x68 ∷ log)

u32_u32 : (x : ℕ) → u32 (u32 x) ≡ u32 x
u32_u32 x = omega arith

module _ (p : Platform) where
  pub read_status :
      (w : World)
      → read_reg p (codes "ics") w
        ≡ (u16 (p.register w.log 2 0x68), record w { log = Event.read 2 0x68 ∷ w.log })
  unfolding read_reg read_found get_reg find_reg regs strncmp_chars read16
  read_status w = refl

  read_response :
      (w : World)
      → read_reg p (codes "irr") w
        ≡ (u32 (p.register w.log 4 0x64), record w { log = Event.read 4 0x64 ∷ w.log })
  unfolding read_reg read_found get_reg find_reg regs strncmp_chars read32
  read_response w = refl

  -- The status register says that a response is there and no command under way.
  abbrev pub is_ready : List Event → Bool
  is_ready log = bit_and (u16 (p.register log 2 0x68)) 0x03 == 0x02

  abbrev pub response_at : List Event → ℕ
  response_at log = u32 (p.register log 4 0x64)

  pub poll_ready_now :
      (k : ℕ) (w : World)
      → is_ready w.log ≡ true
      → let log = Event.read 2 0x68 ∷ w.log in
        poll p k w ≡ (some (response_at log), record w { log = Event.read 4 0x64 ∷ log })
  unfolding poll
  poll_ready_now zero w h =
      rw (read_status w, h, read_response (record w { log = Event.read 2 0x68 ∷ w.log }), u32_u32)
  poll_ready_now (suc k) w h =
      rw (read_status w, h, read_response (record w { log = Event.read 2 0x68 ∷ w.log }), u32_u32)

  pub poll_not_now :
      (k : ℕ) (w : World)
      → is_ready w.log ≡ false
      → poll p (suc k) w ≡ poll p k (record w { log = Event.read 2 0x68 ∷ w.log })
  unfolding poll
  poll_not_now k w h = rw (read_status w, h)

  -- With the response ready at read `j` of the status register, and at none before, the loop makes
  -- `j + 1` reads of that register and one of the response, which it returns.
  poll_ready :
      (k j : ℕ) (w : World)
      → j ≤ k
      → ((i : ℕ) → i < j → is_ready (polled i w.log) ≡ false)
      → is_ready (polled j w.log) ≡ true
      → poll p k w ≡ (
        some (response_at (polled (suc j) w.log)),
        record w { log = Event.read 4 0x64 ∷ polled (suc j) w.log },
      )
  poll_ready k zero w le before now = poll_ready_now k w now
  poll_ready zero (suc j) w le before now = absurd (omega arith)
  poll_ready (suc k) (suc j) w le before now = rw (poll_not_now k w (before 0 (omega arith))) (
      poll_ready k j (record w { log = Event.read 2 0x68 ∷ w.log }) (omega arith)
        (λ i h. before (suc i) (omega arith)) now)

  poll_timeout :
      (k : ℕ) (w : World)
      → ((i : ℕ) → i ≤ k → is_ready (polled i w.log) ≡ false)
      → poll p k w ≡ (none, record w { log = polled (suc k) w.log })
  poll_timeout zero w never = unfold poll in rw (read_status w, never 0 (omega arith))
  poll_timeout (suc k) w never = rw (poll_not_now k w (never 0 (omega arith))) (
      poll_timeout k (record w { log = Event.read 2 0x68 ∷ w.log })
        (λ i h. never (suc i) (omega arith)))

  -- A response that becomes ready at read `j` of the status register, `j` below 1024 and none
  -- before, is returned after `j + 1` such reads and one read of the response register, and
  -- nothing else is accessed.
  pub read_verb_response_ready :
      (j : ℕ) (w : World)
      → j < 1024
      → ((i : ℕ) → i < j → is_ready (polled i w.log) ≡ false)
      → is_ready (polled j w.log) ≡ true
      → read_verb_response p w ≡ (
        some (response_at (polled (suc j) w.log)),
        record w { log = Event.read 4 0x64 ∷ polled (suc j) w.log },
      )
  unfolding read_verb_response
  read_verb_response_ready j w lt before now = poll_ready 1023 j w (omega arith) before now

  -- If 1024 reads of the status register find no response, there is none, and no other access.
  read_verb_response_timeout :
      (w : World)
      → ((i : ℕ) → i < 1024 → is_ready (polled i w.log) ≡ false)
      → read_verb_response p w ≡ (none, record w { log = polled 1024 w.log })
  unfolding read_verb_response
  read_verb_response_timeout w never = poll_timeout 1023 w (λ i h. never i (omega arith))

  -- The first of `n` reads of the status register that finds a response.
  Hit : (n : ℕ) → List Event → Type 0
  Hit n log =
      (j : ℕ) × (j < n)
      × ((i : ℕ) → i < j → is_ready (polled i log) ≡ false)
      × (is_ready (polled j log) ≡ true)

  scan-Hit :
      (n : ℕ) (log : List Event) → Hit n log ⊎ ((i : ℕ) → i < n → is_ready (polled i log) ≡ false)
  unfolding Hit
  scan-Hit zero log = inr (λ i h. absurd (omega arith))
  scan-Hit (suc n) log = elim (scan-Hit n log) [
    | inl (j, lt, before, now) ↦ inl (j, omega arith, before, now)
    | inr none_before ↦ elim (Bool-cases (is_ready (polled n log))) [
      | inl now ↦ inl (n, omega arith, none_before, now)
      | inr not_now ↦ inr (λ i h. elim (lt_or_le i n) [
        | inl lt ↦ none_before i lt
        | inr ge ↦ ap (λ k. is_ready (polled k log)) {x = i} {y = n} (omega arith) ∙ not_now
      ])
    ]
  ]

  -- What polling comes to: the first response that 1024 reads of the status register find, after
  -- which only the response register is read, or none.
  pub data Polls (w : World) : Option ℕ × World → Type 0 where
    answered :
        (j : ℕ)
        → j < 1024
        → ((i : ℕ) → i < j → is_ready (polled i w.log) ≡ false)
        → is_ready (polled j w.log) ≡ true
        → Polls w (
          some (response_at (polled (suc j) w.log)),
          record w { log = Event.read 4 0x64 ∷ polled (suc j) w.log },
        )
    silent :
        ((i : ℕ) → i < 1024 → is_ready (polled i w.log) ≡ false)
        → Polls w (none, record w { log = polled 1024 w.log })

  -- Whatever the device answers, `readVerbResponse` ends after at most 1024 reads of the status
  -- register: with the first response that one of them finds, by one read of the response register,
  -- or without a response if all of them find none. Nothing else is accessed.
  pub read_verb_response-Polls : (w : World) → Polls w (read_verb_response p w)
  unfolding Hit
  read_verb_response-Polls w = elim (scan-Hit 1024 w.log) [
    | inl (j, lt, before, now) ↦
        rw (read_verb_response_ready j w lt before now) (Polls.answered j lt before now)
    | inr never ↦ rw (read_verb_response_timeout w never) (Polls.silent never)
  ]
