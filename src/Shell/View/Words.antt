-- ===== src/Shell/View/Words.antt =====
-- What `findNextParam` and `getCommand` return on a terminated text.
use tiny_os64v.Base.{
  ℕ, zero, suc, ◌+◌, ◌-◌, List, [], ◌∷◌, Option, none, some, true, false, ◌==◌, if◌then◌else◌,
  ◌>>=?◌, length, take, drop, ◌≡◌, refl, sym, arith, ap, ◌∙◌, get_elem?, Bool-cases, inl, inr, ◌⊎◌,
}
use tiny_os64v.Shell.View.{
  View, null_view, text, sub_view, ParamResult, space, skip_spaces, find_end, cut_param,
  find_next_param,
}

-- The text ahead of the first space, and what follows it.
abbrev pub word : List ℕ → List ℕ
word [] = []
word (c ∷ t) = if c == space then [] else c ∷ word t

abbrev pub after_word : List ℕ → List ℕ
after_word [] = []
after_word (c ∷ t) = if c == space then c ∷ t else after_word t

-- The text without the spaces that it begins with.
abbrev pub trim : List ℕ → List ℕ
trim [] = []
trim (c ∷ t) = if c == space then trim t else c ∷ t

-- A text with a zero behind it, as the console makes them.
pub record IsTerminated (v : View) : Type 0 where
  pub end : get_elem? v.bytes v.size ≡ some 0

-- How the first loop ends, `left` characters ahead of the end of the view.
data Skipped (start left : ℕ) (b : List ℕ) : Option (Option ℕ) → Type 0 where
  blank : trim (take left b) ≡ [] → Skipped start left b (some none)
  found :
      (k m s : ℕ)
      → s ≡ start + k
      → k + m ≡ left
      → trim (take left b) ≡ take m (drop k b)
      → get_elem? (drop k b) m ≡ some 0
      → Skipped start left b (some (some s))

Skipped-space :
    (start left : ℕ) (c : ℕ) (b : List ℕ) (r : Option (Option ℕ))
    → c ≡ space
    → Skipped (start + 1) left b r
    → Skipped start (suc left) (c ∷ b) r
Skipped-space start left c b _ is (blank e) = blank (ground arith)
Skipped-space start left c b _ is (found k m s at le e z) =
    found (suc k) m s (omega arith) (omega arith) (ground arith) (ground arith)

trim_one :
    (left c : ℕ) (b : List ℕ) → left ≡ 0 → (c == space) ≡ true → trim (take (suc left) (c ∷ b)) ≡ []
trim_one left c b none_left blank_here = rw (blank_here, none_left)

skip_spaces-Skipped :
    (size start left : ℕ) (b : List ℕ)
    → start + left ≡ size
    → get_elem? b left ≡ some 0
    → Skipped start left b (skip_spaces size start b)
unfolding skip_spaces
skip_spaces-Skipped size start left [] e z = cc
skip_spaces-Skipped size start zero (c ∷ b) e z =
    rw not_space (found 0 0 start (omega arith) (omega arith) refl z)
  where
    not_space : (c == space) ≡ false
    not_space = ground arith
skip_spaces-Skipped size start (suc left) (c ∷ b) e z = elim (Bool-cases (c == space)) [
  | inl blank_here ↦ rw blank_here (elim (Bool-cases (start + 1 == size)) [
    | inl last ↦ rw last (blank (trim_one left c b (ground arith) blank_here))
    | inr more ↦ rw more (
        Skipped-space start left c b _ (ground arith)
          (skip_spaces-Skipped size (start + 1) left b (omega arith) z))
  ])
  | inr here ↦ rw here (found 0 (suc left) start (omega arith) (omega arith) (ground arith) z)
]

-- How the second loop ends.
record Ended (start left : ℕ) (b : List ℕ) (r : Option ℕ) : Type 0 where
  n : ℕ
  m : ℕ
  returns : r ≡ some (start + n)
  sum : n + m ≡ left
  cut : take n b ≡ word (take left b)
  rest : take m (drop n b) ≡ after_word (take left b)
  end : get_elem? (drop n b) m ≡ some 0

find_end-Ended :
    (size start left : ℕ) (b : List ℕ)
    → start + left ≡ size
    → get_elem? b left ≡ some 0
    → Ended start left b (find_end size start b)
unfolding find_end
find_end-Ended size start left [] e z = cc
find_end-Ended size start zero (c ∷ b) e z = record {
  n = 0;
  m = 0;
  returns = ground arith;
  sum = omega arith;
  cut = refl;
  rest = refl;
  end = z;
}
find_end-Ended size start (suc left) (c ∷ b) e z = elim (Bool-cases (c == space)) [
  | inl here ↦ record {
    n = 0;
    m = suc left;
    returns = ground arith;
    sum = omega arith;
    cut = ground arith;
    rest = ground arith;
    end = z;
  }
  | inr other ↦
      let r = find_end-Ended size (start + 1) left b (omega arith) z in
      record {
        n = suc r.n;
        m = r.m;
        returns = ground (arith, r.returns);
        sum = omega (arith, r.sum);
        cut = ground (arith, r.cut);
        rest = ground (arith, r.rest);
        end = r.end;
      }
]

drop-drop : (s n t : ℕ) (xs : List ℕ) → s + n ≡ t → drop n (drop s xs) ≡ drop t xs
drop-drop zero n t xs e = ap (λ k. drop k xs) {x = n} {y = t} (omega arith)
drop-drop (suc s) n zero xs e = absurd (omega arith)
drop-drop (suc s) zero (suc t) [] e = refl
drop-drop (suc s) (suc n) (suc t) [] e = refl
drop-drop (suc s) n (suc t) (x ∷ xs) e = drop-drop s n t xs (omega arith)

-- What `findNextParam` returns on view `v`: the first word, all of it in memory, and what follows
-- it; of a text of spaces alone, two null views.
pub record IsParam (v : View) (r : Option ParamResult) : Type 0 where
  pub result : ParamResult
  pub returns : r ≡ some result
  pub param : text result.param ≡ word (trim (text v))
  pub whole : length (text result.param) ≡ result.param.size
  pub remainder : text result.remainder ≡ after_word (trim (text v))
  pub next : IsTerminated result.remainder ⊎ ((trim (text v) ≡ []) × (result.remainder ≡ null_view))

null-IsParam : (v : View) → trim (text v) ≡ [] → IsParam v (cut_param v none)
unfolding cut_param
null-IsParam v none_left = record {
  result = record { param = null_view; remainder = null_view };
  returns = refl;
  param = rw none_left refl;
  whole = refl;
  remainder = rw none_left refl;
  next = inr (none_left, refl);
}

length-take_ahead :
    (n m x : ℕ) (b : List ℕ) → get_elem? (drop n b) m ≡ some x → length (take n b) ≡ n
length-take_ahead zero m x b e = omega arith
length-take_ahead (suc n) m x [] e = cc
length-take_ahead (suc n) m x (c ∷ b) e = ap suc (length-take_ahead n m x b e)

cut-IsParam :
    (v : View) (s m n l : ℕ)
    → trim (text v) ≡ take m (drop s v.bytes)
    → n + l ≡ m
    → s + m ≡ v.size
    → find_end v.size s (drop s v.bytes) ≡ some (s + n)
    → take n (drop s v.bytes) ≡ word (take m (drop s v.bytes))
    → take l (drop n (drop s v.bytes)) ≡ after_word (take m (drop s v.bytes))
    → get_elem? (drop n (drop s v.bytes)) l ≡ some 0
    → IsParam v (cut_param v (some s))
unfolding cut_param
cut-IsParam v s m n l trimmed nl sm at_end cut rest end = record {
  result = record {
    param = sub_view v s (s + n - s);
    remainder = sub_view v (s + n) (v.size - (s + n));
  };
  returns = rw at_end refl;
  param =
      ap (λ k. take k (drop s v.bytes)) {x = s + n - s} {y = n} (omega arith)
      ∙ cut
      ∙ ap word (sym trimmed);
  whole =
      ap (λ k. length (take k (drop s v.bytes))) {x = s + n - s} {y = n} (omega arith)
      ∙ length-take_ahead n l 0 (drop s v.bytes) end
      ∙ omega arith;
  remainder =
      (let view_end = s + n in
        ap (λ k. take k (drop view_end v.bytes)) {x = v.size - view_end} {y = l} (omega arith))
      ∙ ap (take l) (sym (drop-drop s n (s + n) v.bytes refl))
      ∙ rest
      ∙ ap after_word (sym trimmed);
  next = inl (record {
    end =
        ap (get_elem? (drop (s + n) v.bytes)) {x = v.size - (s + n)} {y = l} (omega arith)
        ∙ ap (λ xs. get_elem? xs l) (sym (drop-drop s n (s + n) v.bytes refl))
        ∙ end;
  });
}

found-IsParam :
    (v : View) (s m : ℕ)
    → trim (text v) ≡ take m (drop s v.bytes)
    → s + m ≡ v.size
    → Ended s m (drop s v.bytes) (find_end v.size s (drop s v.bytes))
    → IsParam v (cut_param v (some s))
found-IsParam v s m trimmed sm r =
    cut-IsParam v s m r.n r.m trimmed r.sum sm r.returns r.cut r.rest r.end

Skipped-IsParam :
    (v : View) (r : Option (Option ℕ)) → Skipped 0 v.size v.bytes r → IsParam v (r >>=? cut_param v)
Skipped-IsParam v _ (blank e) = null-IsParam v e
Skipped-IsParam v _ (found k m s at sum e z) =
    found-IsParam v s m (e ∙ ap (λ n. take m (drop n v.bytes)) at_start) (omega arith) (
      find_end-Ended v.size s m (drop s v.bytes) (omega arith)
        (ap (λ n. get_elem? (drop n v.bytes) m) (sym at_start) ∙ z))
  where
    at_start : k ≡ s
    at_start = omega arith

pub find_next_param-IsParam : (v : View) → IsTerminated v → IsParam v (find_next_param v)
unfolding find_next_param
find_next_param-IsParam v terminated =
    Skipped-IsParam v _ (skip_spaces-Skipped v.size 0 v.size v.bytes (omega arith) terminated.end)
