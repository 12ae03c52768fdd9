-- ===== src/Print/Format/Bounds.antt =====
-- What `snprintf` and `print` write, and when they write outside their array.
use tiny_os64v.Base.{
  ℕ, zero, suc, ◌-◌, ◌^◌, ◌≤◌, ◌<◌, min, Option, none, some, List, [], false, ◌>>=?◌, ◌≡◌, refl,
  arith, ap, ◌∙◌, lt_or_le, inl, inr, length, take, get_elem?, set, take-set_self,
  get_elem?-set_self,
}
use tiny_os64v.Print.Output.{
  Output, limited_string, terminate, get_length, put_all, Holds, put_all-Holds, terminate-Holds,
  put_all_overflow, put_all-text, terminate_overflow, terminate_room,
}
use tiny_os64v.Print.Format.{Arg, snprintf, print}
use tiny_os64v.Print.Format.Render.{render, format-put_all}

-- What is left to do once the text is put.
abbrev finish : Option Output → Option (List ℕ × ℕ)
finish m = m >>=? λ o. terminate o >>=? λ o'. some (o'.buffer, get_length o')

snprintf-finish :
    (s : List ℕ) (n : ℕ) (fmt : List ℕ) (va : List Arg) {t : List ℕ}
    → render false fmt va ≡ some t
    → snprintf s n fmt va ≡ finish (put_all (limited_string s n) t)
unfolding snprintf
snprintf-finish s n fmt va e = rw (format-put_all (limited_string s n) fmt va, e)

limited_string-Holds :
    (s : List ℕ) (n : ℕ) → 0 < n → n < 2 ^ 64 → Holds (n - 1) (length s) [] (limited_string s n)
unfolding limited_string
limited_string-Holds s n pos small = record {
  limit = omega arith;
  room = refl;
  count = omega arith;
  content = nothing (n - 1);
}
  where
    nothing : (k : ℕ) → [] ≡ take {A = ℕ} k []
    nothing zero = refl
    nothing (suc k) = refl

-- The array as `snprintf` leaves it, and the count that it returns: as much of the text as fits
-- below `n - 1` characters, and a terminator behind it.
pub record IsPrinted (s : List ℕ) (n : ℕ) (t : List ℕ) (result : Option (List ℕ × ℕ)) : Type 0 where
  pub array : List ℕ
  pub count : ℕ
  pub returns : result ≡ some (array, count)
  pub same_size : length array ≡ length s
  pub counted : count ≡ min (length t) (n - 1)
  pub content : take count array ≡ take (n - 1) t
  pub terminated : get_elem? array count ≡ some 0

-- On an array of at least `n` characters, `n` positive, `snprintf` of a format with rendered text
-- `t` stores nothing outside the array: it leaves the first `n - 1` characters of `t` and a
-- terminator behind them, and returns how many characters stand before that terminator.
pub snprintf-IsPrinted :
    (s : List ℕ) (n : ℕ) (fmt : List ℕ) (va : List Arg) (t : List ℕ)
    → 0 < n
    → n ≤ length s
    → n < 2 ^ 64
    → render false fmt va ≡ some t
    → IsPrinted s n t (snprintf s n fmt va)
unfolding get_length
snprintf-IsPrinted s n fmt va t pos fits small e =
    let (o, put, holds) =
      put_all-Holds (n - 1) (length s) (omega arith) [] t (limited_string-Holds s n pos small) in
    let (o', ended, count, content, zero_there, same) =
      terminate-Holds (n - 1) (length s) (omega arith) t holds in
    rw (snprintf-finish s n fmt va e, put, ended)
      (record {
        array = o'.buffer;
        count = o'.idx;
        returns = refl;
        same_size = same;
        counted = count;
        content = content;
        terminated = zero_there;
      })

abbrev fresh : List ℕ → Output
fresh buffer = record { buffer = buffer; idx = 0; max_idx = 511 }

fresh_lem : (buffer : List ℕ) → limited_string buffer 512 ≡ fresh buffer
unfolding limited_string
fresh_lem buffer = refl

print-finish :
    (buffer fmt : List ℕ) (va : List Arg) {t : List ℕ}
    → render false fmt va ≡ some t
    → print buffer fmt va ≡ finish (put_all (fresh buffer) t)
unfolding print
print-finish buffer fmt va {t} e =
    snprintf-finish buffer 512 fmt va e ∙ ap (λ o. finish (put_all o t)) (fresh_lem buffer)

-- On its array of 256 characters, `print` of a format whose text has fewer than 256 characters
-- leaves that text whole and terminated for the console, and returns its length.
pub print_whole :
    (buffer fmt : List ℕ) (va : List Arg) (t : List ℕ)
    → length buffer ≡ 256
    → render false fmt va ≡ some t
    → length t < 256
    → (array : List ℕ) × (print buffer fmt va ≡ some (array, length t))
      × (take (length t) array ≡ t)
      × (get_elem? array (length t) ≡ some 0)
unfolding get_length
print_whole buffer fmt va t size e short =
    let (o, put, count, same, content) =
      put_all-text (fresh buffer) t (omega arith) (omega arith) in
    let ended = terminate_room o (omega arith) in
    let n : o.idx ≡ length t = omega arith in
    (
      set o.buffer o.idx 0,
      print-finish buffer fmt va e
          ∙ ap finish put
          ∙ ap (λ m. m >>=? λ o'. some (o'.buffer, get_length o')) ended
          ∙ ap (λ k. some (set o.buffer o.idx 0, k)) n,
      rw (← n) (take-set_self o.buffer o.idx 0 ∙ content),
      rw (← n) (get_elem?-set_self o.buffer o.idx 0 (omega arith)),
    )

-- On its array of 256 characters, `print` of a format whose text has 256 or more characters stores
-- past the end of the array, since it tells `snprintf` the size in bytes.
pub print_overflow :
    (buffer fmt : List ℕ) (va : List Arg) (t : List ℕ)
    → length buffer ≡ 256
    → render false fmt va ≡ some t
    → 256 ≤ length t
    → print buffer fmt va ≡ none
print_overflow buffer fmt va t size e long = elim (lt_or_le 256 (length t)) [
  | inl more ↦
      print-finish buffer fmt va e
      ∙ ap finish (put_all_overflow (fresh buffer) t (omega arith) (omega arith) (omega arith))
  | inr exact ↦
      let (o, put, count, same, content) =
        put_all-text (fresh buffer) t (omega arith) (omega arith) in
      print-finish buffer fmt va e
      ∙ ap finish put
      ∙ ap (λ m. m >>=? λ o'. some (o'.buffer, get_length o')) (terminate_overflow o (omega arith))
]
