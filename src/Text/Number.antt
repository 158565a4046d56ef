-- ===== src/Text/Number.antt =====
-- Decimal numbers in C strings: `strtol` with base 10, for a `long` of 64 bits, and printing.
use linux_dynamic_memory_all.Prelude.{
  ℕ, zero, suc, ◌+◌, ◌-◌, ◌*◌, ◌/◌, ◌%◌, ◌^◌, Bool, true, false, not, ◌&&◌, ◌||◌, [], ◌∷◌,
}
use linux_dynamic_memory_all.Prelude.Tests.{ltb, leb, ◌==◌, if◌then◌else◌}
use linux_dynamic_memory_all.Text.{Text}

-- A signed number: `pos n`, or `negsuc n` for -(n + 1).
pub data ℤ : Type 0 where
  pos : ℕ → ℤ
  negsuc : ℕ → ℤ

abbrev pub minus : ℕ → ℤ
minus zero = pos 0
minus (suc n) = negsuc n

-- `isspace` of the C locale.
abbrev pub is_space : ℕ → Bool
is_space c = c == 32 || leb 9 c && leb c 13

abbrev pub is_digit : ℕ → Bool
is_digit c = leb 48 c && leb c 57

abbrev pub skip_spaces : Text → Text
skip_spaces [] = []
skip_spaces (c ∷ t) = if is_space c then skip_spaces t else c ∷ t

-- The value of the digits at the front, after the value `acc`, and what follows them.
abbrev pub read_digits : ℕ → Text → ℕ × Text
read_digits acc [] = (acc, [])
read_digits acc (c ∷ t) = if is_digit c then read_digits (acc * 10 + (c - 48)) t else (acc, c ∷ t)

-- The result of `strtol`: the value, `*endptr`, and whether `errno` is ERANGE.
pub record Strtol : Type 0 where
  pub value : ℤ
  pub rest : Text
  pub out_of_range : Bool

abbrev long_max : ℕ
long_max = 2 ^ 63 - 1

-- The digits of a number, whose text begins at `start`.
abbrev read_magnitude : Bool → Text → Text → Strtol
read_magnitude negative start [] = record { value = pos 0; rest = start; out_of_range = false }
read_magnitude negative start (c ∷ t) =
    let r = read_digits 0 (c ∷ t) in
    let limit = if negative then long_max + 1 else long_max in
    let n = if ltb limit r.0 then limit else r.0 in
    if is_digit c
    then record {
      value = if negative then minus n else pos n;
      rest = r.1;
      out_of_range = ltb limit r.0;
    }
    else record { value = pos 0; rest = start; out_of_range = false }

abbrev read_signed : Text → Text → Strtol
read_signed start [] = read_magnitude false start []
read_signed start (c ∷ t) =
    if c == 45
    then read_magnitude true start t
    else if c == 43
    then read_magnitude false start t
    else read_magnitude false start (c ∷ t)

unfoldable pub strtol : Text → Strtol
strtol t = read_signed t (skip_spaces t)

-- Tests of a `long` against numbers.
abbrev pub leℤ : ℤ → ℕ → Bool
leℤ (pos m) n = leb m n
leℤ (negsuc m) n = true

abbrev pub ltℤ : ℕ → ℤ → Bool
ltℤ n (pos m) = ltb n m
ltℤ n (negsuc m) = false

abbrev pub sameℤ : ℤ → ℤ → Bool
sameℤ (pos m) (pos n) = m == n
sameℤ (pos m) (negsuc n) = false
sameℤ (negsuc m) (pos n) = false
sameℤ (negsuc m) (negsuc n) = m == n

-- The value of a number that is not negative.
abbrev pub magnitude : ℤ → ℕ
magnitude (pos m) = m
magnitude (negsuc m) = 0

-- `errno == 0 && *endptr == '\0'`.
abbrev pub whole : Strtol → Bool
whole r = not r.out_of_range && elim r.rest [ [] ↦ true | _ ∷ _ ↦ false ]

-- `%d` of a number that is not negative, before `rest`.
unfoldable pub decimal_from : ℕ → ℕ → Text → Text
decimal_from zero n rest = (48 + n % 10) ∷ rest
decimal_from (suc fuel) n rest =
    let more = decimal_from fuel (n / 10) ((48 + n % 10) ∷ rest) in
    if ltb n 10 then (48 + n) ∷ rest else more

unfoldable pub decimal : ℕ → Text
unfolding decimal_from
decimal n = decimal_from n n []
