-- ===== src/Print/Output.antt =====
-- `mi::PutLimitedString` of src/myprint.cpp. A store outside the buffer's array is a fault, `none`.
use tiny_os64v.Base.{
  ℕ, zero, suc, ◌+◌, ◌-◌, ◌≤◌, ◌<◌, min, Option, none, some, List, [], ◌∷◌, ◌++◌, ◌≡◌, refl, arith,
  ltb, lt_or_le, inl, inr, if◌then◌else◌, ◌>>=?◌, >>=?-assoc, length, take, set, get_elem?, u64,
  append_assoc, append-nil, ◌^◌, length-set, get_elem?-set_self, take-set_end, take-set_self,
  length-append, sym, ◌∙◌, ap,
}
use native.Mathlib.Numerals.{add-one}

pub record Output : Type 0 where
  pub buffer : List ℕ
  pub idx : ℕ
  pub max_idx : ℕ

-- The constructor; `bytes - 1` is taken in `size_t`.
unfoldable pub limited_string : List ℕ → ℕ → Output
limited_string buffer bytes = record {
  buffer = buffer;
  idx = 0;
  max_idx = u64 (bytes + 2 ^ 64 - 1);
}

unfoldable pub putc : Output → ℕ → Option Output
putc o c =
    if ltb o.idx o.max_idx
    then (if ltb o.idx (length o.buffer)
        then some (record o { buffer = set o.buffer o.idx c; idx = o.idx + 1 })
        else none)
    else some o

unfoldable pub terminate : Output → Option Output
terminate o =
    if ltb o.idx (length o.buffer) then some (record o { buffer = set o.buffer o.idx 0 }) else none

unfoldable pub get_length : Output → ℕ
get_length o = o.idx

-- A text put character by character.
unfoldable pub put_all : Output → List ℕ → Option Output
put_all o [] = some o
put_all o (c ∷ cs) = putc o c >>=? λ o'. put_all o' cs

pub put_all-append :
    (o : Output) (xs ys : List ℕ) → put_all o (xs ++ ys) ≡ (put_all o xs >>=? λ o'. put_all o' ys)
unfolding put_all
put_all-append o [] ys = refl
put_all-append o (x ∷ xs) ys =
    simp (>>=?-assoc (putc o x), λ (o' : Output). put_all-append o' xs ys)

-- The text that an output holds so far.
abbrev pub text : Output → List ℕ
text o = take o.idx o.buffer

-- The state after putting `t` behind `done`, with room for `cap` characters in all.
pub record Holds (cap : ℕ) (size : ℕ) (t : List ℕ) (o : Output) : Type 0 where
  pub limit : o.max_idx ≡ cap
  pub room : length o.buffer ≡ size
  pub count : o.idx ≡ min (length t) cap
  pub content : text o ≡ take cap t

take-append_lt : (t : List ℕ) (c n : ℕ) → length t < n → take n (t ++ c ∷ []) ≡ take n t ++ c ∷ []
take-append_lt [] c zero h = elim h [ ]
take-append_lt [] c (suc zero) h = refl
take-append_lt [] c (suc (suc n)) h = refl
take-append_lt (x ∷ t) c zero h = elim h [ ]
take-append_lt (x ∷ t) c (suc n) h = ap (λ r. x ∷ r) (take-append_lt t c n (omega arith))

take-append_le : (t : List ℕ) (c n : ℕ) → n ≤ length t → take n (t ++ c ∷ []) ≡ take n t
take-append_le t c zero h = refl
take-append_le [] c (suc n) h = absurd (omega arith)
take-append_le (x ∷ t) c (suc n) h = ap (λ r. x ∷ r) (take-append_le t c n (omega arith))

module _ (cap size : ℕ) (fits : cap < size) where
  putc-Holds :
      (t : List ℕ) (c : ℕ) {o : Output}
      → Holds cap size t o
      → (o' : Output) × (putc o c ≡ some o') × Holds cap size (t ++ c ∷ []) o'
  unfolding putc
  putc-Holds t c {o} h = elim (lt_or_le (length t) cap) [
    | inl below ↦ (
      record o { buffer = set o.buffer o.idx c; idx = o.idx + 1 },
      ground arith,
      record {
        limit = h.limit;
        room = length-set o.buffer o.idx c ∙ h.room;
        count = omega (arith, length-append t (c ∷ []));
        content = rw add-one (
            take-set_end o.buffer o.idx c (omega arith)
            ∙ ap (λ r. r ++ c ∷ []) h.content
            ∙ sym (take-append_lt t c cap below));
      },
    )
    | inr full ↦ (
      o,
      ground arith,
      record {
        limit = h.limit;
        room = h.room;
        count = omega (arith, length-append t (c ∷ []));
        content = h.content ∙ sym (take-append_le t c cap (ground arith));
      },
    )
  ]

  -- Text put behind what the output holds: nothing is lost but what passes the limit.
  pub put_all-Holds :
      (t ys : List ℕ) {o : Output}
      → Holds cap size t o
      → (o' : Output) × (put_all o ys ≡ some o') × Holds cap size (t ++ ys) o'
  unfolding put_all
  put_all-Holds t [] {o} h = (o, refl, rw append-nil h)
  put_all-Holds t (y ∷ ys) {o} h =
      let (mid, put, held) = putc-Holds t y h in
      let (o', all, holds) = put_all-Holds (t ++ y ∷ []) ys held in
      (o', rw put all, rw append_assoc at holds)

  pub terminate-Holds :
      (t : List ℕ) {o : Output}
      → Holds cap size t o
      → (o' : Output) × (terminate o ≡ some o')
        × (o'.idx ≡ min (length t) cap)
        × (text o' ≡ take cap t)
        × (get_elem? o'.buffer o'.idx ≡ some 0)
        × (length o'.buffer ≡ size)
  unfolding terminate
  terminate-Holds t {o} h = (
    record o { buffer = set o.buffer o.idx 0 },
    ground arith,
    h.count,
    take-set_self o.buffer o.idx 0 ∙ h.content,
    get_elem?-set_self o.buffer o.idx 0 (omega arith),
    length-set o.buffer o.idx 0 ∙ h.room,
  )

-- Where the limit lies past the end of the array, a text that is longer than the room left faults.
pub put_all_overflow :
    (o : Output) (ys : List ℕ)
    → length o.buffer < o.max_idx
    → o.idx ≤ length o.buffer
    → length o.buffer < o.idx + length ys
    → put_all o ys ≡ none
unfolding put_all putc
put_all_overflow o [] wide inside long = absurd (omega arith)
put_all_overflow o (y ∷ ys) wide inside long = elim (lt_or_le o.idx (length o.buffer)) [
  | inl room ↦ rw (step room) (
      put_all_overflow (record o { buffer = set o.buffer o.idx y; idx = o.idx + 1 }) ys
        (rw length-set wide) (rw length-set (omega arith)) (rw length-set (omega arith)))
  | inr full ↦ rw (stuck full)
]
  where
    step :
        o.idx < length o.buffer
        → putc o y ≡ some (record o { buffer = set o.buffer o.idx y; idx = o.idx + 1 })
    step room = ground arith

    stuck : length o.buffer ≤ o.idx → putc o y ≡ none
    stuck full = ground arith

-- At a full array the terminator is stored past its end.
pub terminate_overflow : (o : Output) → length o.buffer ≤ o.idx → terminate o ≡ none
unfolding terminate
terminate_overflow o full = ground arith

-- A text in bounds is appended, also if the limit lies past the end of the array.
pub put_all-text :
    (o : Output) (ys : List ℕ)
    → length o.buffer ≤ o.max_idx
    → o.idx + length ys ≤ length o.buffer
    → (o' : Output) × (put_all o ys ≡ some o')
      × (o'.idx ≡ o.idx + length ys)
      × (length o'.buffer ≡ length o.buffer)
      × (text o' ≡ text o ++ ys)
unfolding put_all putc
put_all-text o [] wide fits = (o, refl, omega arith, refl, sym (append-nil (text o)))
put_all-text o (y ∷ ys) wide fits =
    let mid : Output = record o { buffer = set o.buffer o.idx y; idx = o.idx + 1 } in
    let put : putc o y ≡ some mid = ground arith in
    let grown : text mid ≡ text o ++ y ∷ [] =
      rw add-one (take-set_end o.buffer o.idx y (omega arith)) in
    let (o', all, count, same, content) =
      put_all-text mid ys (rw length-set wide) (rw length-set (omega arith)) in
    (
      o',
      rw put all,
      omega arith,
      same ∙ length-set o.buffer o.idx y,
      content ∙ ap (λ t. t ++ ys) grown ∙ append_assoc (text o) (y ∷ []) ys,
    )

pub terminate_room :
    (o : Output)
    → o.idx < length o.buffer
    → terminate o ≡ some (record o { buffer = set o.buffer o.idx 0 })
unfolding terminate
terminate_room o room = ground arith
