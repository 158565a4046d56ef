-- ===== src/Text/Decimal.antt =====
-- `strtol` reads what `%d` prints.
use linux_dynamic_memory_all.Prelude.{
  ℕ, zero, suc, ◌+◌, ◌-◌, ◌*◌, ◌/◌, ◌%◌, ◌^◌, ◌≡◌, refl, ap, sym, ◌∙◌, true, false, [], ◌∷◌, arith,
  ◌≤◌, ◌<◌, inl, inr,
}
use linux_dynamic_memory_all.Prelude.Tests.{ltb, ◌==◌, Bool-cases}
use linux_dynamic_memory_all.Text.{Text}
use linux_dynamic_memory_all.Text.Number.{
  is_space, is_digit, read_digits, decimal_from, decimal, strtol, pos,
}

-- The digits are read back, and reading goes on behind them.
pub read_digits-decimal_from :
    (fuel n : ℕ) (rest : Text)
    → n ≤ fuel
    → read_digits 0 (decimal_from fuel n rest) ≡ read_digits n rest
unfolding decimal_from
read_digits-decimal_from zero n rest le =
    let e : is_digit (48 + n % 10) ≡ true = ground arith in
    let f : 0 * 10 + (48 + n % 10 - 48) ≡ n = omega arith in rw (e, f) refl
read_digits-decimal_from (suc fuel) n rest le = elim (Bool-cases (ltb n 10)) [
  | inl b ↦
      let e : is_digit (48 + n) ≡ true = ground arith in
      let f : 0 * 10 + (48 + n - 48) ≡ n = omega arith in rw (b, e, f) refl
  | inr b ↦
      let e : is_digit (48 + n % 10) ≡ true = ground arith in
      let f : n / 10 * 10 + (48 + n % 10 - 48) ≡ n = omega arith in
      let ih = read_digits-decimal_from fuel (n / 10) ((48 + n % 10) ∷ rest) (ground arith) in
      rw (b, ih, e, f) refl
]

-- The first character is a digit.
pub decimal_from-head :
    (fuel n : ℕ) (rest : Text)
    → (c : ℕ) × (t : Text) × (decimal_from fuel n rest ≡ c ∷ t) × (is_digit c ≡ true)
unfolding decimal_from
decimal_from-head zero n rest = (48 + n % 10, rest, refl, ground arith)
decimal_from-head (suc fuel) n rest = elim (Bool-cases (ltb n 10)) [
  | inl b ↦ rw b (48 + n, rest, refl, ground arith)
  | inr b ↦ rw b (decimal_from-head fuel (n / 10) ((48 + n % 10) ∷ rest))
]

strtol_of_digits :
    (c n : ℕ) (t : Text)
    → is_digit c ≡ true
    → read_digits 0 (c ∷ t) ≡ (n, [])
    → n < 2 ^ 63
    → strtol (c ∷ t) ≡ record { value = pos n; rest = []; out_of_range = false }
unfolding strtol
strtol_of_digits c n t d r lt =
    let s : is_space c ≡ false = ground arith in
    let m : (c == 45) ≡ false = ground arith in
    let p : (c == 43) ≡ false = ground arith in
    let q : read_digits (0 * 10 + (c - 48)) t ≡ (n, []) = rw d at r in
    let o : ltb (2 ^ 63 - 1) n ≡ false = ground arith in rw (s, m, p, d, q, o) refl

-- strtol
pub strtol-decimal :
    (n : ℕ)
    → n < 2 ^ 63
    → strtol (decimal n) ≡ record { value = pos n; rest = []; out_of_range = false }
unfolding decimal
strtol-decimal n lt =
    let (c, t, e, d) = decimal_from-head n n [] in
    let r : read_digits 0 (c ∷ t) ≡ (n, []) =
      ap (read_digits 0) (sym e) ∙ read_digits-decimal_from n n [] (omega arith) in
    rw e (strtol_of_digits c n t d r lt)
