-- ===== src/Signal/Laws.antt =====
-- What src/monitor/signal_handler.c accepts and sends.
use linux_dynamic_memory_all.Prelude.{
  ℕ, zero, suc, ap, ◌≡◌, ◌≤◌, ◌<◌, inl, inr, refl, Bool, true, false, ◌&&◌, Option, none, some, [],
  ◌∷◌, arith,
}
use linux_dynamic_memory_all.Prelude.Tests.{◌==◌, Bool-cases, ==→eq}
use linux_dynamic_memory_all.Text.{Text}
use linux_dynamic_memory_all.Text.Number.{strtol, decimal}
use linux_dynamic_memory_all.Signal.{signal_parse_name}

-- range
pub signal_parse_name-le : (name : Text) (sig : ℕ) → signal_parse_name name ≡ some sig → sig ≤ 31
unfolding signal_parse_name
signal_parse_name-le [] sig e = ground arith
signal_parse_name-le (c ∷ t) sig e = ground arith

-- A test that holds of all numbers below `k`.
abbrev all_below : (ℕ → Bool) → ℕ → Bool
all_below p zero = true
all_below p (suc k) = p k && all_below p k

all_below-true : (p : ℕ → Bool) (k n : ℕ) → all_below p k ≡ true → n < k → p n ≡ true
all_below-true p zero n e lt = absurd (omega arith)
all_below-true p (suc k) n e lt = elim (Bool-cases (n == k)) [
  | inl q ↦ rw (==→eq n k q) (ground arith)
  | inr q ↦ all_below-true p k n (ground arith) (ground arith)
]

abbrev is_some : Option ℕ → ℕ → Bool
is_some none n = false
is_some (some m) n = m == n

is_some→eq : (o : Option ℕ) (n : ℕ) → is_some o n ≡ true → o ≡ some n
is_some→eq none n e = absurd (ground arith)
is_some→eq (some m) n e = ap some (==→eq m n e)

parses : all_below (λ n. is_some (signal_parse_name (decimal n)) n) 32 ≡ true
unfolding signal_parse_name strtol decimal
parses = refl

-- signal_parse_name reads each number from 0 to 31, written in decimal, as that signal.
pub signal_parse_name-decimal : (n : ℕ) → n ≤ 31 → signal_parse_name (decimal n) ≡ some n
signal_parse_name-decimal n le =
    is_some→eq (signal_parse_name (decimal n)) n
      (all_below-true (λ n. is_some (signal_parse_name (decimal n)) n) 32 n parses (omega arith))
