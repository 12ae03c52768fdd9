-- ===== src/Shell/View/Command.antt =====
-- What `getCommand` of src/commands.cpp returns on a terminated line.
use tiny_os64v.Base.{
  ℕ, zero, suc, ◌+◌, List, [], ◌∷◌, Option, some, if◌then◌else◌, ◌>>=?◌, take, drop, ◌-◌, ◌∙◌, ◌≡◌,
  refl, ap, arith, get_elem?, Bool-cases, inl, inr,
}
use tiny_os64v.Shell.View.{View, view, text, sub_view, is_alpha, command_end, get_command}
use tiny_os64v.Shell.View.Words.{IsTerminated}

-- The letters that a text begins with.
abbrev pub letters : List ℕ → List ℕ
letters [] = []
letters (c ∷ t) = if is_alpha c then c ∷ letters t else []

-- What follows them.
abbrev pub after_letters : List ℕ → List ℕ
after_letters [] = []
after_letters (c ∷ t) = if is_alpha c then after_letters t else c ∷ t

record EndsAt (last left : ℕ) (b : List ℕ) (r : Option ℕ) : Type 0 where
  n : ℕ
  m : ℕ
  sum : n + m ≡ left
  returns : r ≡ some (last + n)
  cut : take n b ≡ letters (take left b)
  rest : take m (drop n b) ≡ after_letters (take left b)
  end : get_elem? (drop n b) m ≡ some 0

command_end-EndsAt :
    (size last left : ℕ) (b : List ℕ)
    → last + left ≡ size
    → get_elem? b left ≡ some 0
    → EndsAt last left b (command_end size last b)
unfolding command_end
command_end-EndsAt size last left [] e z = cc
command_end-EndsAt size last zero (c ∷ b) e z = record {
  n = 0;
  m = 0;
  sum = omega arith;
  returns = ground arith;
  cut = refl;
  rest = refl;
  end = z;
}
command_end-EndsAt size last (suc left) (c ∷ b) e z = elim (Bool-cases (is_alpha c)) [
  | inl letter ↦
      let r = command_end-EndsAt size (last + 1) left b (omega arith) z in
      record {
        n = suc r.n;
        m = r.m;
        sum = omega (arith, r.sum);
        returns = ground (arith, r.returns);
        cut = ground (arith, r.cut);
        rest = ground (arith, r.rest);
        end = r.end;
      }
  | inr other ↦ record {
    n = 0;
    m = suc left;
    sum = omega arith;
    returns = ground arith;
    cut = rw other refl;
    rest = rw other refl;
    end = z;
  }
]

-- What `getCommand` returns on view `v`: a view of the letters that its text begins with, behind
-- which the rest of the text stands, with its zero behind it.
pub record IsCommand (v : View) (r : Option View) : Type 0 where
  pub command : View
  pub returns : r ≡ some command
  pub letters_of : text command ≡ letters (text v)
  pub bytes : command.bytes ≡ v.bytes
  pub rest : text (sub_view v command.size (v.size - command.size)) ≡ after_letters (text v)
  pub terminated : IsTerminated (sub_view v command.size (v.size - command.size))

ends-IsCommand :
    (v : View) (r : Option ℕ)
    → EndsAt 0 v.size v.bytes r
    → IsCommand v (r >>=? λ n. some (view v.bytes n))
ends-IsCommand v r ends =
    let n = ends.n in
    let left : v.size - n ≡ ends.m = omega (arith, ends.sum) in
    rw ends.returns (record {
      command = view v.bytes n;
      returns = ap (λ n. some (view v.bytes n)) {x = 0 + n} {y = n} (omega arith);
      letters_of = ends.cut;
      bytes = refl;
      rest = ap (λ k. take k (drop n v.bytes)) left ∙ ends.rest;
      terminated = record { end = ap (get_elem? (drop n v.bytes)) left ∙ ends.end };
    })

-- Called on a line with a zero behind it, `getCommand` reads no memory outside the line, and
-- returns a view, at the start of the line, of the letters that it begins with; the view of what
-- follows them has its zero behind it too.
pub get_command-IsCommand : (v : View) → IsTerminated v → IsCommand v (get_command v)
unfolding get_command
get_command-IsCommand v terminated =
    ends-IsCommand v _ (command_end-EndsAt v.size 0 v.size v.bytes (omega arith) terminated.end)
