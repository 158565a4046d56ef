-- ===== src/Tui/Order.antt =====
-- `compare_procs` of src/ui/tui.c, the order of the process table.
use linux_dynamic_memory_all.Prelude.{
  ℕ, ◌+◌, ◌-◌, ◌%◌, ◌^◌, ◌≡◌, ◌<◌, ◌≤◌, inl, inr, refl, sym, Bool, true, false, [], ◌∷◌, arith,
}
use linux_dynamic_memory_all.Prelude.Tests.{ltb, ◌==◌, Bool-cases, if◌then◌else◌}
use linux_dynamic_memory_all.Text.{Text}
use linux_dynamic_memory_all.Text.Number.{ℤ, pos, negsuc}
use linux_dynamic_memory_all.Proc.{Process}
use linux_dynamic_memory_all.Tui.{SortMode, sort_by_cpu, sort_by_mem, sort_by_pid, sort_by_name}

-- The sign of a comparison's result, which is all that `qsort_r` reads.
pub data Sign : Type 0 where
  negative same_rank positive : Sign

-- `if (b > a) return 1; if (b < a) return -1; return 0;` with the two tests.
abbrev descending : Bool → Bool → Sign
descending b_above b_below = if b_above then positive else if b_below then negative else same_rank

-- 2 ^ 32.
abbrev int_mod : ℕ
int_mod = 2 ^ 32

-- The 32 bits of an `int`.
abbrev bits_of : ℤ → ℕ
bits_of (pos n) = n % int_mod
bits_of (negsuc n) = int_mod - 1 - n % int_mod

-- The sign of the `int` with these bits.
abbrev sign_bits : ℕ → Sign
sign_bits n = if n == 0 then same_rank else if ltb n (2 ^ 31) then positive else negative

-- The sign of `m - n`, which wraps to 32 bits.
unfoldable sign_difference : ℤ → ℤ → Sign
sign_difference m n = sign_bits ((bits_of m + (int_mod - bits_of n)) % int_mod)

-- `strcmp`.
abbrev sign_text : Text → Text → Sign
sign_text [] [] = same_rank
sign_text [] (y ∷ t) = negative
sign_text (x ∷ s) [] = positive
sign_text (x ∷ s) (y ∷ t) =
    let more = sign_text s t in if ltb x y then negative else if ltb y x then positive else more

-- `below` is `<` of the percentages.
unfoldable pub compare_procs :
    {F : Type 0} → (F → F → Bool) → SortMode → Process F → Process F → Sign
unfolding sign_difference
compare_procs below sort_by_cpu p q =
    descending (below p.cpu_usage_pct q.cpu_usage_pct) (below q.cpu_usage_pct p.cpu_usage_pct)
compare_procs below sort_by_mem p q =
    descending (ltb p.vm_rss_kb q.vm_rss_kb) (ltb q.vm_rss_kb p.vm_rss_kb)
compare_procs below sort_by_pid p q = sign_difference p.pid q.pid
compare_procs below sort_by_name p q = sign_text p.comm q.comm

-- The order of texts by their first byte that differs; a text comes after its beginnings.
pub data Precedes : Text → Text → Type 0 where
  ended : {y : ℕ} {t : Text} → Precedes [] (y ∷ t)
  first_less : {x y : ℕ} {s t : Text} → x < y → Precedes (x ∷ s) (y ∷ t)
  first_same : {x y : ℕ} {s t : Text} → x ≡ y → Precedes s t → Precedes (x ∷ s) (y ∷ t)

-- What the kernel gives to a process: a number from 0 that is an `int`.
pub data IsPid : ℤ → Type 0 where
  is_int : {n : ℕ} → n < 2 ^ 31 → IsPid (pos n)

pub data IsLess : ℤ → ℤ → Type 0 where
  less_pid : {m n : ℕ} → m < n → IsLess (pos m) (pos n)

-- Which of two processes the table shows first: the one with more usage, with more memory, with the
-- lesser pid, with the name that comes first.
abbrev pub ShownFirst : {F : Type 0} → (F → F → Bool) → SortMode → Process F → Process F → Type 0
ShownFirst below sort_by_cpu p q = below q.cpu_usage_pct p.cpu_usage_pct ≡ true
ShownFirst below sort_by_mem p q = q.vm_rss_kb < p.vm_rss_kb
ShownFirst below sort_by_pid p q = IsLess p.pid q.pid
ShownFirst below sort_by_name p q = Precedes p.comm q.comm

-- The sign says whether `P`, `Q`, or neither of them holds.
pub data Decides (P Q : Type 0) : Sign → Type 0 where
  goes_first : P → Decides P Q negative
  neither : ¬ P → ¬ Q → Decides P Q same_rank
  goes_last : Q → Decides P Q positive

descending-Decides : (a b : Bool) → Decides (b ≡ true) (a ≡ true) (descending a b)
descending-Decides true b = goes_last refl
descending-Decides false true = goes_first refl
descending-Decides false false = neither (λ e. absurd (ground arith)) (λ e. absurd (ground arith))

mem-Decides : (m n : ℕ) → Decides (n < m) (m < n) (descending (ltb m n) (ltb n m))
mem-Decides m n = elim (Bool-cases (ltb m n)) [
  | inl e ↦ rw e (goes_last (ground arith))
  | inr e ↦ elim (Bool-cases (ltb n m)) [
    | inl g ↦ rw (e, g) (goes_first (ground arith))
    | inr g ↦ rw (e, g) (neither (λ l. ground arith) (λ l. ground arith))
  ]
]

not-IsLess : {m n : ℕ} → n ≤ m → ¬ IsLess (pos m) (pos n)
not-IsLess le (less_pid lt) = absurd (omega arith)

pid-Decides :
    (p q : ℤ) → IsPid p → IsPid q → Decides (IsLess p q) (IsLess q p) (sign_difference p q)
unfolding sign_difference
pid-Decides _ _ (is_int {n = m} lm) (is_int {n = n} ln) =
    let bm : m % int_mod ≡ m = ground arith in
    let bn : n % int_mod ≡ n = ground arith in
    elim (Bool-cases (ltb m n)) [
      | inl e ↦
          let d : (m + (int_mod - n)) % int_mod ≡ m + (int_mod - n) = ground arith in
          let z : (m + (int_mod - n) == 0) ≡ false = ground arith in
          let s : ltb (m + (int_mod - n)) (2 ^ 31) ≡ false = ground arith in
          rw (bm, bn, d, z, s) (goes_first (less_pid (ground arith)))
      | inr e ↦
          let le : n ≤ m = ground arith in
          let d : (m + (int_mod - n)) % int_mod ≡ m - n = omega arith in
          elim (Bool-cases (m - n == 0)) [
            | inl z ↦
                rw (bm, bn, d, z) (neither (not-IsLess (ground arith)) (not-IsLess (ground arith)))
            | inr z ↦
                let s : ltb (m - n) (2 ^ 31) ≡ true = ground arith in
                rw (bm, bn, d, z, s) (goes_last (less_pid (ground arith)))
          ]
    ]

after_first : {x y : ℕ} {s t : Text} → x ≡ y → Precedes (x ∷ s) (y ∷ t) → Precedes s t
after_first e (first_less lt) = absurd (omega arith)
after_first e (first_same q p) = p

text-Decides : (s t : Text) → Decides (Precedes s t) (Precedes t s) (sign_text s t)
text-Decides [] [] = neither none_none none_none
  where
    none_none : ¬ Precedes [] []
    none_none p = elim p [ ]
text-Decides [] (y ∷ t) = goes_first ended
text-Decides (x ∷ s) [] = goes_last ended
text-Decides (x ∷ s) (y ∷ t) = elim (Bool-cases (ltb x y)) [
  | inl e ↦ rw e (goes_first (first_less (ground arith)))
  | inr e ↦ elim (Bool-cases (ltb y x)) [
    | inl g ↦ rw (e, g) (goes_last (first_less (ground arith)))
    | inr g ↦ let q : x ≡ y = ground arith in rw (e, g) (deeper q (text-Decides s t))
  ]
]
  where
    deeper :
        {r : Sign}
        → x ≡ y
        → Decides (Precedes s t) (Precedes t s) r
        → Decides (Precedes (x ∷ s) (y ∷ t)) (Precedes (y ∷ t) (x ∷ s)) r
    deeper e (goes_first p) = goes_first (first_same e p)
    deeper e (neither p q) = neither (λ k. p (after_first e k)) (λ k. q (after_first (sym e) k))
    deeper e (goes_last q) = goes_last (first_same (sym e) q)

-- For two processes whose pids are from 0 to 2 ^ 31 - 1, compare_procs is negative only if the
-- first is to be shown first, positive only if the second is, and 0 only if neither is, in each of
-- its modes: more usage, more memory, the lesser pid, and the name that comes first.
pub compare_procs-Decides :
    {F : Type 0} (below : F → F → Bool) (mode : SortMode) (p q : Process F)
    → IsPid p.pid
    → IsPid q.pid
    → Decides (ShownFirst below mode p q) (ShownFirst below mode q p) (compare_procs below mode p q)
unfolding compare_procs
compare_procs-Decides below sort_by_cpu p q hp hq = descending-Decides _ _
compare_procs-Decides below sort_by_mem p q hp hq = mem-Decides p.vm_rss_kb q.vm_rss_kb
compare_procs-Decides below sort_by_pid p q hp hq = pid-Decides p.pid q.pid hp hq
compare_procs-Decides below sort_by_name p q hp hq = text-Decides p.comm q.comm
