-- ===== src/Print/Format/Render.antt =====
-- `format` puts the text that its format and arguments stand for.
use mathlib.Core.Path.{fun_ext}
use tiny_os64v.Base.{
  ℕ, ◌+◌, ◌-◌, ◌^◌, ◌<◌, bit_and, Option, none, some, List, [], ◌∷◌, ◌++◌, Bool, true, false, ltb,
  ◌==◌, if◌then◌else◌, ◌>>=?◌, >>=?-assoc, u8, u32, u64, ◌≡◌, refl, arith, ap, ◌∙◌, sym, lt_or_le,
  ◌≤◌, inl, inr,
}
use tiny_os64v.Bits.{bit_and_bit}
use tiny_os64v.Print.Output.{Output, putc, put_all, put_all-append}
use tiny_os64v.Print.Hex.{to_hex, to_hex32, hex_text, to_hex-put_all, to_hex32-put_all}
use tiny_os64v.Print.Decimal.Digits.{udec_text, to_udec-put_all}
use tiny_os64v.Print.Format.{
  Arg, word, chars, next_word, next_chars, wide, put_string, put_unsigned, put_signed, with_word,
  with_chars, with_none, directive, format_loop, format,
}

-- The characters of a C string, or `none` if its memory has no terminator.
unfoldable pub string_text : List ℕ → Option (List ℕ)
string_text [] = none
string_text (c ∷ s) = if c == 0 then some [] else (string_text s >>=? λ t. some (wide c ∷ t))

-- The decimal text of an `int32_t`, given as its bit pattern.
abbrev pub dec_text : ℕ → List ℕ
dec_text v = if ltb v (2 ^ 31) then udec_text v else b'-' ∷ udec_text (2 ^ 32 - v)

abbrev pub of_word : (ℕ → List ℕ) → List Arg → Option (List ℕ × List Arg)
of_word f va = next_word va >>=? λ a. some (f a.0, a.1)

-- The text of a directive, with the arguments left.
unfoldable pub directive_text : ℕ → List Arg → Option (List ℕ × List Arg)
directive_text ch va =
    if ch == b'X'
    then of_word (λ w. hex_text 16 (u64 w)) va
    else if ch == b'x'
    then of_word (λ w. hex_text 8 (u32 w)) va
    else if ch == b'u'
    then of_word (λ w. udec_text (u32 w)) va
    else if ch == b'd'
    then of_word (λ w. dec_text (u32 w)) va
    else if ch == b'c'
    then of_word (λ w. wide (u8 w) ∷ []) va
    else if ch == b's'
    then (next_chars va >>=? λ a. string_text a.0 >>=? λ t. some (t, a.1))
    else if ch == b'%'
    then some (b'%' ∷ [], va)
    else some (b'?' ∷ [], va)

-- The text of a format.
unfoldable pub render : Bool → List ℕ → List Arg → Option (List ℕ)
render pending [] va = none
render true (ch ∷ fmt) va =
    directive_text ch va >>=? λ r. render false fmt r.1 >>=? λ t. some (r.0 ++ t)
render false (ch ∷ fmt) va =
    let percent = render true fmt va in
    let plain = render false fmt va >>=? λ t. some (wide ch ∷ t) in
    if ch == 0 then some [] else if ch == b'%' then percent else plain

-- A step that puts a text.
abbrev pub Puts : (Output → Option Output) → Option (List ℕ) → Type 0
Puts f t = (o : Output) → f o ≡ (t >>=? λ t. put_all o t)

-- Where text is put before a step, a fault of the step's text comes to the same as before it.
prepend :
    (m : Option Output) (t : Option (List ℕ)) (f : Output → Option Output)
    → Puts f t
    → (m >>=? f) ≡ (t >>=? λ t. m >>=? λ o. put_all o t)
prepend none none f h = refl
prepend none (some t) f h = refl
prepend (some o) none f h = h o
prepend (some o) (some t) f h = h o

-- A test on both sides of a bind.
branch {ℓ} :
    {A B : Type ℓ} (b : Bool) {x y : Option B} (x' y' : Option A) (k : A → Option B)
    → x ≡ (x' >>=? k)
    → y ≡ (y' >>=? k)
    → (if b then x else y) ≡ ((if b then x' else y') >>=? k)
branch true x' y' k p q = p
branch false x' y' k p q = q

put_string-Puts : (s : List ℕ) → Puts (put_string s) (string_text s)
unfolding put_string string_text put_all
put_string-Puts [] o = refl
put_string-Puts (c ∷ s) o =
    branch (c == 0) _ _ (λ t. put_all o t) refl
      (prepend (putc o (wide c)) (string_text s) (put_string s) (put_string-Puts s)
        ∙ sym (>>=?-assoc (string_text s) _ _))

abbrev with_count : ℕ → Output → Option (Output × ℕ)
with_count n o = some (o, n)

drop_count : (m : Option Output) (n : ℕ) → ((m >>=? with_count n) >>=? λ r. some r.0) ≡ m
drop_count none n = refl
drop_count (some o) n = refl

put_unsigned_lem : (v : ℕ) (o : Output) → v < 2 ^ 32 → put_unsigned v o ≡ put_all o (udec_text v)
unfolding put_unsigned
put_unsigned_lem v o h = rw (to_udec-put_all o v h) (drop_count (put_all o (udec_text v)) _)

put_signed_lem : (v : ℕ) (o : Output) → v < 2 ^ 32 → put_signed v o ≡ put_all o (dec_text v)
unfolding put_signed put_all
put_signed_lem v o h = elim (lt_or_le v (2 ^ 31)) [
  | inl small ↦ rw (plus small, lower small) (put_unsigned_lem v o h)
  | inr big ↦
      rw (minus big, upper big, complement big)
        (ap (λ k. putc o b'-' >>=? k)
          (fun_ext λ o'. put_unsigned_lem (2 ^ 32 - v) o' (omega arith)))
]
  where
    plus : v < 2 ^ 31 → (bit_and v 0x80000000 == 0) ≡ true
    plus small = ground (arith, bit_and_bit 31 v)

    minus : 2 ^ 31 ≤ v → (bit_and v 0x80000000 == 0) ≡ false
    minus big = ground (arith, bit_and_bit 31 v)

    lower : v < 2 ^ 31 → ltb v (2 ^ 31) ≡ true
    lower small = ground arith

    upper : 2 ^ 31 ≤ v → ltb v (2 ^ 31) ≡ false
    upper big = ground arith

    complement : 2 ^ 31 ≤ v → u32 (2 ^ 32 - 1 - v + 1) ≡ 2 ^ 32 - v
    complement big = omega arith

abbrev put_rest : Output → List ℕ × List Arg → Option (Output × List Arg)
put_rest o r = put_all o r.0 >>=? λ o'. some (o', r.1)

with_word_lem :
    (put : ℕ → Output → Option Output) (f : ℕ → List ℕ) (o : Output) (va : List Arg)
    → ((w : ℕ) → put w o ≡ put_all o (f w))
    → with_word put o va ≡ (of_word f va >>=? put_rest o)
with_word_lem put f o [] h = refl
with_word_lem put f o (word w ∷ va) h = ap (λ m. m >>=? λ o'. some (o', va)) (h w)
with_word_lem put f o (chars s ∷ va) h = refl

putc-put_all : (o : Output) (c : ℕ) → putc o c ≡ put_all o (c ∷ [])
unfolding put_all
putc-put_all o c = go (putc o c)
  where
    go : (m : Option Output) → m ≡ (m >>=? λ o'. some o')
    go none = refl
    go (some o') = refl

with_chars_lem :
    (o : Output) (va : List Arg)
    → with_chars put_string o va
      ≡ ((next_chars va >>=? λ a. string_text a.0 >>=? λ t. some (t, a.1)) >>=? put_rest o)
with_chars_lem o [] = refl
with_chars_lem o (word w ∷ va) = refl
with_chars_lem o (chars s ∷ va) =
    ap (λ m. m >>=? λ o'. some (o', va)) (put_string-Puts s o)
    ∙ >>=?-assoc (string_text s) _ _
    ∙ sym (>>=?-assoc (string_text s) _ _)

with_none_lem :
    (o : Output) (va : List Arg) (c : ℕ) → with_none (λ o. putc o c) o va ≡ put_rest o (c ∷ [], va)
with_none_lem o va c = ap (λ m. m >>=? λ o'. some (o', va)) (putc-put_all o c)

directive_lem :
    (ch : ℕ) (o : Output) (va : List Arg)
    → directive ch o va ≡ (directive_text ch va >>=? put_rest o)
unfolding directive directive_text
directive_lem ch o va =
    branch (ch == b'X') _ _ (put_rest o)
      (with_word_lem (λ w o. to_hex o (u64 w)) (λ w. hex_text 16 (u64 w)) o va
        (λ w. to_hex-put_all o (u64 w)))
      (branch (ch == b'x') _ _ (put_rest o)
        (with_word_lem (λ w o. to_hex32 o (u32 w)) (λ w. hex_text 8 (u32 w)) o va
          (λ w. to_hex32-put_all o (u32 w)))
        (branch (ch == b'u') _ _ (put_rest o)
          (with_word_lem (λ w o. put_unsigned (u32 w) o) (λ w. udec_text (u32 w)) o va
            (λ w. put_unsigned_lem (u32 w) o (omega arith)))
          (branch (ch == b'd') _ _ (put_rest o)
            (with_word_lem (λ w o. put_signed (u32 w) o) (λ w. dec_text (u32 w)) o va
              (λ w. put_signed_lem (u32 w) o (omega arith)))
            (branch (ch == b'c') _ _ (put_rest o)
              (with_word_lem (λ w o. putc o (wide (u8 w))) (λ w. wide (u8 w) ∷ []) o va
                (λ w. putc-put_all o (wide (u8 w))))
              (branch (ch == b's') _ _ (put_rest o) (with_chars_lem o va) (
                branch (ch == b'%') _ _ (put_rest o) (with_none_lem o va b'%')
                  (with_none_lem o va b'?')))))))

-- A directive's text, and that of the format behind it.
behind :
    (o : Output) (t : List ℕ) (rest : Option (List ℕ)) (f : Output → Option Output)
    → Puts f rest
    → (put_all o t >>=? f) ≡ ((rest >>=? λ t'. some (t ++ t')) >>=? λ t. put_all o t)
behind o t none f h = prepend (put_all o t) none f h
behind o t (some t') f h = prepend (put_all o t) (some t') f h ∙ sym (put_all-append o t t')

directive_then :
    (ch : ℕ) (va : List Arg) (o : Output) (f : List Arg → Output → Option Output)
    (rest : List Arg → Option (List ℕ))
    → ((va : List Arg) → Puts (f va) (rest va))
    → (directive ch o va >>=? λ r. f r.1 r.0)
      ≡ ((directive_text ch va >>=? λ r. rest r.1 >>=? λ t. some (r.0 ++ t)) >>=? put_all o)
directive_then ch va o f rest h = rw (directive_lem ch o va) (go (directive_text ch va))
  where
    go :
        (d : Option (List ℕ × List Arg))
        → ((d >>=? put_rest o) >>=? λ r. f r.1 r.0)
          ≡ ((d >>=? λ r. rest r.1 >>=? λ t. some (r.0 ++ t)) >>=? put_all o)
    go none = refl
    go (some (t, va')) = >>=?-assoc (put_all o t) _ _ ∙ behind o t (rest va') (f va') (h va')

plain_then :
    (c : ℕ) (o : Output) (f : Output → Option Output) (rest : Option (List ℕ))
    → Puts f rest
    → (putc o c >>=? f) ≡ ((rest >>=? λ t. some (c ∷ t)) >>=? put_all o)
unfolding put_all
plain_then c o f rest h = prepend (putc o c) rest f h ∙ sym (>>=?-assoc rest _ _)

format_loop-Puts :
    (pending : Bool) (fmt : List ℕ) (va : List Arg)
    → Puts (λ o. format_loop pending fmt o va) (render pending fmt va)
unfolding format_loop render
format_loop-Puts true [] va o = refl
format_loop-Puts false [] va o = refl
format_loop-Puts true (ch ∷ fmt) va o =
    directive_then ch va o (λ va o. format_loop false fmt o va) (render false fmt)
      (λ va'. format_loop-Puts false fmt va')
format_loop-Puts false (ch ∷ fmt) va o = branch (ch == 0) _ _ (put_all o) (unfold put_all in refl) (
    branch (ch == b'%') _ _ (put_all o) (format_loop-Puts true fmt va o) (
      plain_then (wide ch) o (λ o. format_loop false fmt o va) (render false fmt va)
        (format_loop-Puts false fmt va)))

-- `format` comes to putting its rendered text, one character after the other; it faults where the
-- text does, for want of an argument or a terminator, and where a character is put past the array.
pub format-put_all :
    (o : Output) (fmt : List ℕ) (va : List Arg)
    → format o fmt va ≡ (render false fmt va >>=? λ t. put_all o t)
unfolding format
format-put_all o fmt va = format_loop-Puts false fmt va o
