-- ===== src/Shell/Commands/Count/Pieces.antt =====
-- The words of a text: the pieces between its spaces that are not empty.
use tiny_os64v.Base.{
  ℕ, ◌<◌, ◌≤◌, List, [], ◌∷◌, true, false, ◌==◌, if◌then◌else◌, length, ◌≡◌, refl, arith, inl, inr,
  Bool-cases,
}
use tiny_os64v.Shell.View.{space}
use tiny_os64v.Shell.View.Words.{word, trim, after_word}

-- A character ahead of the first piece.
abbrev pub onto_first : ℕ → List (List ℕ) → List (List ℕ)
onto_first c [] = (c ∷ []) ∷ []
onto_first c (p ∷ ps) = (c ∷ p) ∷ ps

abbrev pub pieces : List ℕ → List (List ℕ)
pieces [] = [] ∷ []
pieces (c ∷ t) = if c == space then [] ∷ pieces t else onto_first c (pieces t)

abbrev pub filled : List (List ℕ) → List (List ℕ)
filled [] = []
filled ([] ∷ ps) = filled ps
filled ((c ∷ p) ∷ ps) = (c ∷ p) ∷ filled ps

abbrev pub words : List ℕ → List (List ℕ)
words t = filled (pieces t)

-- The first piece is the text ahead of the first space; the others hold the words behind it.
record Parts (t : List ℕ) : Type 0 where
  others : List (List ℕ)
  splits : pieces t ≡ word t ∷ others
  behind : filled others ≡ words (after_word t)

parts : (t : List ℕ) → Parts t
parts [] = record { others = []; splits = refl; behind = refl }
parts (c ∷ t) = elim (Bool-cases (c == space)) [
  | inl here ↦ record { others = pieces t; splits = rw here refl; behind = rw here (rw here refl) }
  | inr other ↦
      let r = parts t in
      record { others = r.others; splits = rw (other, r.splits) refl; behind = rw other r.behind }
]

-- A text of spaces alone has no words; else the first word is followed by those of the rest.
pub data IsSplit (t : List ℕ) : Type 0 where
  empty : trim t ≡ [] → words t ≡ [] → IsSplit t
  first :
      (c : ℕ) (p : List ℕ)
      → word (trim t) ≡ c ∷ p
      → words t ≡ (c ∷ p) ∷ words (after_word (trim t))
      → length (after_word (trim t)) < length t
      → IsSplit t

after_word_short : (t : List ℕ) → length (after_word t) ≤ length t
after_word_short [] = omega arith
after_word_short (c ∷ t) = elim (Bool-cases (c == space)) [
  | inl here ↦ rw here (omega arith)
  | inr other ↦ rw other (omega (arith, after_word_short t))
]

IsSplit-space : (c : ℕ) (t : List ℕ) → (c == space) ≡ true → IsSplit t → IsSplit (c ∷ t)
IsSplit-space c t here (empty e none_left) = empty (rw here e) (rw here none_left)
IsSplit-space c t here (first d p e splits short) =
    first d p (rw here e) (rw here splits) (rw here (omega (arith, short)))

IsSplit-other : (c : ℕ) (t : List ℕ) → (c == space) ≡ false → IsSplit (c ∷ t)
IsSplit-other c t other =
    let r = parts t in
    first c (word t) (rw other (rw other refl)) (rw other (rw (r.splits, r.behind) (rw other refl)))
      (rw other (rw other (omega (arith, after_word_short t))))

pub words-IsSplit : (t : List ℕ) → IsSplit t
words-IsSplit [] = empty refl refl
words-IsSplit (c ∷ t) = elim (Bool-cases (c == space)) [
  | inl here ↦ IsSplit-space c t here (words-IsSplit t)
  | inr other ↦ IsSplit-other c t other
]
