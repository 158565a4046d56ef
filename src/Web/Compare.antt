-- ===== src/Web/Compare.antt =====
-- `constant_time_streq` of src/monitor/gui_server.c.
use linux_dynamic_memory_all.Prelude.{
  ℕ, zero, suc, ◌+◌, ◌≡◌, ◌≤◌, ◌<◌, refl, ap, Bool, false, [], ◌∷◌, ◌++◌, ◌∙◌, sym, arith, inl, inr,
}
use linux_dynamic_memory_all.Prelude.Tests.{◌==◌, Bool-cases, ==→eq}
use linux_dynamic_memory_all.Prelude.Lists.{length, All}
use linux_dynamic_memory_all.Prelude.Bits.{
  bit_xor, bit_or, bit_xor-zero, bit_xor_self, bit_xor-lt, bit_or-lt, bit_or-zero, bit_or_none,
}
use linux_dynamic_memory_all.Text.{Text, same}
use linux_dynamic_memory_all.Text.Laws.{same→eq, same_refl}

-- The character at an index that is within the string or at its end.
abbrev pub char_at : Text → ℕ → ℕ
char_at [] i = 0
char_at (c ∷ t) zero = c
char_at (c ∷ t) (suc i) = char_at t i

-- The loop from index `i`, with `rounds` rounds left.
unfoldable pub differences : Text → Text → ℕ → ℕ → ℕ → ℕ
differences a b zero i result = result
differences a b (suc rounds) i result =
    differences a b rounds (i + 1) (bit_or 8 result (bit_xor 8 (char_at a i) (char_at b i)))

unfoldable pub constant_time_streq : Text → Text → ℕ → Bool
unfolding differences
constant_time_streq a b len = differences a b len 0 0 == 0

char_at-lt : (t : Text) (i : ℕ) → All (λ c. c < 256) t → char_at t i < 256
char_at-lt [] i b = omega arith
char_at-lt (c ∷ t) zero (x, b) = x
char_at-lt (c ∷ t) (suc i) (x, b) = char_at-lt t i b

-- The loop ends at 0 when it began at 0 and each pair of characters is equal, and only then.
differences-zero :
    (a b : Text) (rounds i result : ℕ)
    → All (λ c. c < 256) a
    → All (λ c. c < 256) b
    → result < 256
    → differences a b rounds i result ≡ 0
    → (result ≡ 0) × ((j : ℕ) → i ≤ j → j < i + rounds → char_at a j ≡ char_at b j)
unfolding differences
differences-zero a b zero i result la lb lr e = (e, λ j le lt. absurd (omega arith))
differences-zero a b (suc rounds) i result la lb lr e =
    let x = bit_xor 8 (char_at a i) (char_at b i) in
    let (z, same_above) =
      differences-zero a b rounds (i + 1) (bit_or 8 result x) la lb (bit_or-lt 8 result x) e in
    let (r, d) = bit_or-zero 8 result x lr (bit_xor-lt 8 (char_at a i) (char_at b i)) z in
    let q = bit_xor-zero 8 (char_at a i) (char_at b i) (char_at-lt a i la) (char_at-lt b i lb) d in
    (
      r,
      λ j le lt. elim (Bool-cases (j == i)) [
        | inl f ↦ rw (==→eq j i f) q
        | inr f ↦ same_above j (ground arith) (ground arith)
      ],
    )

-- Strings with equal characters up to the last round.
differences-none :
    (a b : Text) (rounds i : ℕ)
    → ((j : ℕ) → j < i + rounds → char_at a j ≡ char_at b j)
    → differences a b rounds i 0 ≡ 0
unfolding differences
differences-none a b zero i e = refl
differences-none a b (suc rounds) i e =
    rw (e i (omega arith), bit_xor_self 8 (char_at b i), bit_or_none 8)
      (differences-none a b rounds (i + 1) (λ j lt. e j (omega arith)))

char_at-append : (a t : Text) (j : ℕ) → j < length a → char_at (a ++ t) j ≡ char_at a j
char_at-append [] t j lt = absurd (ground arith)
char_at-append (x ∷ a) t zero lt = refl
char_at-append (x ∷ a) t (suc j) lt = char_at-append a t j (ground arith)

-- Texts of one length with the same characters.
equal_chars :
    (a b : Text)
    → length a ≡ length b
    → ((j : ℕ) → j < length a → char_at a j ≡ char_at b j)
    → a ≡ b
equal_chars [] [] l e = refl
equal_chars [] (y ∷ b) l e = absurd (ground arith)
equal_chars (x ∷ a) [] l e = absurd (ground arith)
equal_chars (x ∷ a) (y ∷ b) l e =
    let h = e zero (ground arith) in
    let t = equal_chars a b (ground arith) (λ j lt. e (suc j) (ground arith)) in cc

-- For two strings of bytes of one length, the first of which may go on, constant_time_streq over
-- that length is true just if the strings are equal.
pub constant_time_streq-same :
    (a b after : Text)
    → All (λ c. c < 256) (a ++ after)
    → All (λ c. c < 256) b
    → length a ≡ length b
    → constant_time_streq (a ++ after) b (length b) ≡ same a b
unfolding constant_time_streq
constant_time_streq-same a b after la lb e = elim (Bool-cases (same a b)) [
  | inl s ↦
      let q = same→eq a b s in
      let d =
        differences-none (a ++ after) b (length b) 0
          (λ j lt. char_at-append a after j (omega arith) ∙ ap (λ (t : Text). char_at t j) q) in
      rw (s, d) refl
  | inr s ↦ elim (Bool-cases (differences (a ++ after) b (length b) 0 0 == 0)) [
    | inl z ↦
        let (r, d) =
          differences-zero (a ++ after) b (length b) 0 0 la lb (omega arith) (==→eq _ 0 z) in
        let q =
          equal_chars a b e
            (λ j lt. sym (char_at-append a after j lt) ∙ d j (omega arith) (omega arith)) in
        let k : same b b ≡ false = rw q at s in absurd (ground (arith, same_refl b))
    | inr z ↦ rw (s, z) refl
  ]
]
