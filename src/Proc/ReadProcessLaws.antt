-- ===== src/Proc/ReadProcessLaws.antt =====
-- `proc_parser_read_process` of src/monitor/proc_parser.c reads the line that the kernel writes.
use linux_dynamic_memory_all.Prelude.{
  ℕ, zero, suc, ◌+◌, ◌-◌, ◌/◌, ◌%◌, ◌≡◌, ◌<◌, refl, ap, sym, ◌∙◌, true, false, Option, none, some,
  [], ◌∷◌, ◌++◌, arith,
}
use linux_dynamic_memory_all.Prelude.Tests.{leb, ◌==◌}
use linux_dynamic_memory_all.Prelude.Lists.{length, has}
use linux_dynamic_memory_all.Text.{Text, drop}
use linux_dynamic_memory_all.Text.Laws.{take-append, append_assoc, length-append}
use linux_dynamic_memory_all.Text.Number.{ℤ, decimal, decimal_from}
use linux_dynamic_memory_all.Proc.ReadProcess.{
  max_comm_len, find_char, find_last, cut_comm, split_comm, Scan, StatNumbers, stat_info,
  add_status, with_comm, with_numbers, proc_parser_read_process,
}

-- The file as proc(5) has it: the pid, the name in parentheses, and the numbers.
abbrev pub stat_line : ℕ → Text → Text → Text
stat_line pid comm rest = decimal pid ++ (32 ∷ 40 ∷ (comm ++ (41 ∷ 32 ∷ rest)))

find_char-here :
    (c : ℕ) (s t : Text) → has c s ≡ false → find_char c (s ++ (c ∷ t)) ≡ some (length s)
find_char-here c [] t h = let e : (c == c) ≡ true = ground arith in rw e refl
find_char-here c (d ∷ s) t h =
    let e : (c == d) ≡ false = ground arith in rw (e, find_char-here c s t (ground arith)) refl

find_last-none : (c : ℕ) (t : Text) → has c t ≡ false → find_last c t ≡ none
find_last-none c [] h = refl
find_last-none c (d ∷ t) h =
    let e : (c == d) ≡ false = ground arith in rw (find_last-none c t (ground arith), e) refl

find_last-here :
    (c : ℕ) (s t : Text) → has c t ≡ false → find_last c (s ++ (c ∷ t)) ≡ some (length s)
find_last-here c [] t h =
    let e : (c == c) ≡ true = ground arith in rw (find_last-none c t h, e) refl
find_last-here c (d ∷ s) t h = rw (find_last-here c s t h) refl

no_paren-decimal_from :
    (fuel n : ℕ) (rest : Text) → has 40 rest ≡ false → has 40 (decimal_from fuel n rest) ≡ false
unfolding decimal_from
no_paren-decimal_from zero n rest h = ground arith
no_paren-decimal_from (suc fuel) n rest h =
    let more = no_paren-decimal_from fuel (n / 10) ((48 + n % 10) ∷ rest) (ground arith) in
    ground arith

no_paren-decimal : (n : ℕ) → has 40 (decimal n) ≡ false
unfolding decimal
no_paren-decimal n = no_paren-decimal_from n n [] refl

drop-beyond : (n : ℕ) (s t : Text) → drop (length s + n) (s ++ t) ≡ drop n t
drop-beyond n [] t = ap (λ (k : ℕ). drop k t) (omega arith)
drop-beyond n (x ∷ s) t =
    let e : length (x ∷ s) + n ≡ suc (length s + n) = omega arith in
    ap (λ (k : ℕ). drop k (x ∷ (s ++ t))) e ∙ drop-beyond n s t

not-has-append : (c : ℕ) (s t : Text) → has c s ≡ false → has c t ≡ false → has c (s ++ t) ≡ false
not-has-append c [] t h k = k
not-has-append c (x ∷ s) t h k = ground (arith, not-has-append c s t)

module _ (pid : ℕ) (comm rest : Text) (short : length comm < max_comm_len)
    (plain : has 41 rest ≡ false) (more : 0 < length rest) where
  abbrev front : Text
  front = decimal pid ++ (32 ∷ [])

  abbrev line : Text
  line = stat_line pid comm rest

  opening : line ≡ front ++ (40 ∷ (comm ++ (41 ∷ 32 ∷ rest)))
  opening = sym (append_assoc (decimal pid) (32 ∷ []) (40 ∷ (comm ++ (41 ∷ 32 ∷ rest))))

  closing : line ≡ (front ++ (40 ∷ comm)) ++ (41 ∷ 32 ∷ rest)
  closing = opening ∙ sym (append_assoc front (40 ∷ comm) (41 ∷ 32 ∷ rest))

  length-line : length line ≡ length front + 1 + length comm + 2 + length rest
  length-line =
      ap length closing
      ∙ omega (
        arith,
        length-append (front ++ (40 ∷ comm)) (41 ∷ 32 ∷ rest),
        length-append front (40 ∷ comm),
      )

  find_char-line : find_char 40 line ≡ some (length front)
  find_char-line =
      ap (find_char 40) opening
      ∙ find_char-here 40 front (comm ++ (41 ∷ 32 ∷ rest))
          (not-has-append 40 (decimal pid) (32 ∷ []) (no_paren-decimal pid) refl)

  find_last-line : find_last 41 line ≡ some (length front + 1 + length comm)
  find_last-line =
      ap (find_last 41) closing
      ∙ find_last-here 41 (front ++ (40 ∷ comm)) (32 ∷ rest) (ground arith)
      ∙ ap some (let e = length-append front (40 ∷ comm) in omega arith)

  drop-opening : drop (length front + 1) line ≡ comm ++ (41 ∷ 32 ∷ rest)
  drop-opening =
      ap (drop (length front + 1)) opening ∙ drop-beyond 1 front (40 ∷ (comm ++ (41 ∷ 32 ∷ rest)))

  drop-closing : drop (length front + 1 + length comm + 2) line ≡ rest
  drop-closing =
      let e : length front + 1 + length comm + 2 ≡ length (front ++ (40 ∷ comm)) + 2 =
        let l = length-append front (40 ∷ comm) in omega arith in
      ap (λ (k : ℕ). drop k line) e
      ∙ ap (drop (length (front ++ (40 ∷ comm)) + 2)) closing
      ∙ drop-beyond 2 (front ++ (40 ∷ comm)) (41 ∷ 32 ∷ rest)

  cut_comm-line : cut_comm line (length front) (length front + 1 + length comm) ≡ some (comm, rest)
  cut_comm-line =
      let n : length front + 1 + length comm - (length front + 1) ≡ length comm = omega arith in
      let a : leb (length front + 1 + length comm) (length front) ≡ false = ground arith in
      let b : leb (length line) (length front + 1 + length comm + 2) ≡ false =
        ground (arith, length-line) in
      let c : leb max_comm_len (length comm) ≡ false = ground arith in
      rw (a, b, n, c, drop-opening, drop-closing, take-append comm (41 ∷ 32 ∷ rest)) refl

  split_comm-stat_line : split_comm line ≡ some (comm, rest)
  unfolding split_comm
  split_comm-stat_line = rw (find_char-line, find_last-line) cut_comm-line

  -- For a name below 256 bytes, with any parentheses and spaces, and numbers that have no closing
  -- parenthesis, are not empty and are read by sscanf, proc_parser_read_process gives back the
  -- name and the numbers from the line that proc(5) describes, with what it reads of the status
  -- file.
  pub proc_parser_read_process-stat_line :
      (scan : Scan) (p : ℤ) (status : Option Text) (n : StatNumbers)
      → scan.stat_numbers rest ≡ some n
      → proc_parser_read_process scan p (some (stat_line pid comm rest)) status
        ≡ some (add_status scan status (stat_info p comm n))
  unfolding proc_parser_read_process
  proc_parser_read_process-stat_line scan p status n e =
      ap (with_comm scan p status) split_comm-stat_line ∙ ap (with_numbers scan p comm status) e
