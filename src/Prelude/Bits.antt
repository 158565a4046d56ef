-- ===== src/Prelude/Bits.antt =====
-- The bit operations of C on numbers of `bits` bits, and rounding by a mask.
use native.Mathlib.Nat.{
  one-le-pow, two-pow-succ, pow-le-pow_right, mod-add-div, mod-lt, add-mul-mod_self_left,
  mod-eq_of_lt,
}
use linux_dynamic_memory_all.Prelude.{
  ℕ, zero, suc, ◌+◌, ◌-◌, ◌*◌, ◌/◌, ◌%◌, ◌^◌, ◌≡◌, ◌≤◌, ◌<◌, arith, refl, ap, ◌∙◌,
}

-- `a & b`, of the lowest `bits` bits.
unfoldable pub bit_and : ℕ → ℕ → ℕ → ℕ
bit_and zero a b = 0
bit_and (suc bits) a b = a % 2 * (b % 2) + 2 * bit_and bits (a / 2) (b / 2)

-- A mask of ones keeps the number.
bit_and-ones : (n x : ℕ) → x < 2 ^ n → bit_and n x (2 ^ n - 1) ≡ x
unfolding bit_and
bit_and-ones zero x lt = omega arith
bit_and-ones (suc n) x lt =
    let p = one-le-pow n 2 (omega arith) in
    let d = two-pow-succ n in
    let e1 : (2 ^ suc n - 1) % 2 ≡ 1 = omega arith in
    let e2 : (2 ^ suc n - 1) / 2 ≡ 2 ^ n - 1 = omega arith in
    let ih = bit_and-ones n (x / 2) (omega arith) in rw (e1, e2, ih) (omega arith)

-- The remainder by an even number, from the half.
halves : (m x : ℕ) → 0 < m → x % (m + m) ≡ x % 2 + 2 * (x / 2 % m)
halves m x pos =
    let r = x / 2 % m in
    let q = x / 2 / m in
    let e : x / 2 % m + m * (x / 2 / m) ≡ x / 2 = mod-add-div (x / 2) m in
    let l : x / 2 % m < m = mod-lt (x / 2) pos in
    let f : x ≡ x % 2 + 2 * (x / 2 % m) + (m + m) * (x / 2 / m) = omega arith in
    let g = add-mul-mod_self_left (x % 2 + 2 * (x / 2 % m)) (m + m) (x / 2 / m) in
    let h = mod-eq_of_lt {n = x % 2 + 2 * (x / 2 % m)} {m = m + m} (omega arith) in
    ap (λ (y : ℕ). y % (m + m)) f ∙ g ∙ h

-- A mask without the lowest `k` bits rounds down to a multiple of `2 ^ k`.
pub bit_and-mask : (n k x : ℕ) → k ≤ n → x < 2 ^ n → bit_and n x (2 ^ n - 2 ^ k) ≡ x - x % 2 ^ k
unfolding bit_and
bit_and-mask n zero x le lt = let e = bit_and-ones n x lt in omega (arith, e)
bit_and-mask zero (suc k) x le lt = absurd (omega arith)
bit_and-mask (suc n) (suc k) x le lt =
    let d = two-pow-succ n in
    let c = two-pow-succ k in
    let m = pow-le-pow_right {n = 2} (omega arith) {i = k} {j = n} (omega arith) in
    let e1 : (2 ^ suc n - 2 ^ suc k) % 2 ≡ 0 = omega arith in
    let e2 : (2 ^ suc n - 2 ^ suc k) / 2 ≡ 2 ^ n - 2 ^ k = omega arith in
    let ih = bit_and-mask n k (x / 2) (omega arith) (omega arith) in
    rw (e1, e2, ih)
      (let b = halves (2 ^ k) x (one-le-pow k 2 (omega arith)) in
        let w : x % 2 ^ suc k ≡ x % (2 ^ k + 2 ^ k) = ap (λ (y : ℕ). x % y) c in omega arith)

-- `a ^ b` and `a | b`, of the lowest `bits` bits.
unfoldable pub bit_xor : ℕ → ℕ → ℕ → ℕ
bit_xor zero a b = 0
bit_xor (suc bits) a b = (a % 2 + b % 2) % 2 + 2 * bit_xor bits (a / 2) (b / 2)

unfoldable pub bit_or : ℕ → ℕ → ℕ → ℕ
bit_or zero a b = 0
bit_or (suc bits) a b = (a % 2 + b % 2 + 1) / 2 + 2 * bit_or bits (a / 2) (b / 2)

-- Numbers with no differing bit are equal.
pub bit_xor-zero : (n a b : ℕ) → a < 2 ^ n → b < 2 ^ n → bit_xor n a b ≡ 0 → a ≡ b
unfolding bit_xor
bit_xor-zero zero a b la lb e = omega arith
bit_xor-zero (suc n) a b la lb e =
    let d = two-pow-succ n in
    let ih = bit_xor-zero n (a / 2) (b / 2) (omega arith) (omega arith) (omega arith) in omega arith

pub bit_xor_self : (n a : ℕ) → bit_xor n a a ≡ 0
unfolding bit_xor
bit_xor_self zero a = refl
bit_xor_self (suc n) a = let ih = bit_xor_self n (a / 2) in omega arith

pub bit_xor-lt : (n a b : ℕ) → bit_xor n a b < 2 ^ n
unfolding bit_xor
bit_xor-lt zero a b = omega arith
bit_xor-lt (suc n) a b =
    let d = two-pow-succ n in let ih = bit_xor-lt n (a / 2) (b / 2) in omega arith

pub bit_or-lt : (n a b : ℕ) → bit_or n a b < 2 ^ n
unfolding bit_or
bit_or-lt zero a b = omega arith
bit_or-lt (suc n) a b =
    let d = two-pow-succ n in let ih = bit_or-lt n (a / 2) (b / 2) in omega arith

-- No bit is set in either.
pub bit_or-zero : (n a b : ℕ) → a < 2 ^ n → b < 2 ^ n → bit_or n a b ≡ 0 → (a ≡ 0) × (b ≡ 0)
unfolding bit_or
bit_or-zero zero a b la lb e = omega arith
bit_or-zero (suc n) a b la lb e =
    let d = two-pow-succ n in
    let ih = bit_or-zero n (a / 2) (b / 2) (omega arith) (omega arith) (omega arith) in omega arith

pub bit_or_none : (n : ℕ) → bit_or n 0 0 ≡ 0
unfolding bit_or
bit_or_none zero = refl
bit_or_none (suc n) = let ih = bit_or_none n in omega arith
