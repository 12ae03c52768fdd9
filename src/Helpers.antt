-- ===== src/Helpers.antt =====
-- src/helpers.h: the three overloads of `strncmp`, which say whether their arguments agree. A
-- pointer comes with the memory from there to the end of its object; a read past it is `none`.
pub mod Views
use tiny_os64v.Base.{
  ℕ, zero, suc, List, [], ◌∷◌, Option, none, some, Bool, true, false, ◌==◌, ◌&&◌, if◌then◌else◌,
  length, not,
}

-- `strncmp(const char*, const char*, size_t)`.
unfoldable pub strncmp : List ℕ → List ℕ → ℕ → Option Bool
strncmp s1 s2 zero = some true
strncmp [] s2 (suc n) = none
strncmp (a ∷ s1) [] (suc n) = none
strncmp (a ∷ s1) (b ∷ s2) (suc n) =
    let rest = strncmp s1 s2 n in
    if not (a == b) then some false else if (a == 0) && (b == 0) then some true else rest

-- `strncmp(const std::string_view&, const char*)`: the view is compared with as many characters.
unfoldable pub strncmp_chars : List ℕ → List ℕ → Option Bool
strncmp_chars [] s2 = some true
strncmp_chars (a ∷ s1) [] = none
strncmp_chars (a ∷ s1) (b ∷ s2) =
    let rest = strncmp_chars s1 s2 in if not (a == b) then some false else rest

-- `strncmp(const std::string_view&, const std::string_view&)`, behind its comparison of sizes.
unfoldable pub strncmp_loop : List ℕ → List ℕ → Option Bool
strncmp_loop [] s2 = some true
strncmp_loop (a ∷ s1) [] = none
strncmp_loop (a ∷ s1) (b ∷ s2) =
    let rest = strncmp_loop s1 s2 in if not (a == b) then some false else rest

unfoldable pub strncmp_views : List ℕ → List ℕ → Option Bool
strncmp_views s1 s2 = if not (length s1 == length s2) then some false else strncmp_loop s1 s2
