-- ===== src/Text.antt =====
-- C strings: a string is the list of its bytes up to the terminating zero, a pointer into it is the
-- rest of the list. The functions of string.h and stdlib.h that the monitor uses.
pub mod Decimal
pub mod Number
pub mod Laws
use Prim.Native.Char.{code}
use Prim.Native.String.{String}
use linux_dynamic_memory_all.Prelude.{
  ℕ, zero, suc, ◌+◌, ◌-◌, Bool, true, false, ◌&&◌, ◌||◌, Option, none, some, List, [], ◌∷◌, ◌++◌,
}
use linux_dynamic_memory_all.Prelude.Tests.{ltb, leb, ◌==◌, if◌then◌else◌}

abbrev pub Text : Type 0
Text = List ℕ

-- A string literal.
abbrev pub codes : String → Text
codes String.[] = []
codes (String.◌∷◌ c s) = code c ∷ codes s

-- `strcmp(s, t) == 0`.
abbrev pub same : Text → Text → Bool
same [] [] = true
same [] (y ∷ t) = false
same (x ∷ s) [] = false
same (x ∷ s) (y ∷ t) = x == y && same s t

-- `strncmp(t, s, strlen(s)) == 0`.
abbrev pub starts : Text → Text → Bool
starts [] t = true
starts (x ∷ s) [] = false
starts (x ∷ s) (y ∷ t) = x == y && starts s t

-- `tolower` of the C locale.
abbrev pub to_lower : ℕ → ℕ
to_lower c = if leb 65 c && leb c 90 then c + 32 else c

-- `strncasecmp(t, s, strlen(s)) == 0`.
abbrev pub starts_nocase : Text → Text → Bool
starts_nocase [] t = true
starts_nocase (x ∷ s) [] = false
starts_nocase (x ∷ s) (y ∷ t) = to_lower x == to_lower y && starts_nocase s t

abbrev pub take : ℕ → Text → Text
take zero t = []
take (suc n) [] = []
take (suc n) (x ∷ t) = x ∷ take n t

abbrev pub drop : ℕ → Text → Text
drop zero t = t
drop (suc n) [] = []
drop (suc n) (x ∷ t) = drop n t

-- `strstr(t, s) - t`, for `s` not empty.
abbrev pub find : Text → Text → Option ℕ
find s [] = none
find s (y ∷ t) =
    if starts s (y ∷ t) then some 0 else elim (find s t) [ none ↦ none | some k ↦ some (suc k) ]
