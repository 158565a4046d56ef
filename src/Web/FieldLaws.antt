-- ===== src/Web/FieldLaws.antt =====
-- `parse_json_field` of src/monitor/gui_server.c on the body that web/app.js sends.
use native.Mathlib.Nat.{pow-suc}
use linux_dynamic_memory_all.Prelude.{
  ℕ, zero, suc, ◌+◌, ◌/◌, ◌%◌, ◌^◌, ◌≡◌, ◌≤◌, ◌<◌, refl, ap, sym, ◌∙◌, Bool, true, false, not, ◌&&◌,
  some, [], ◌∷◌, ◌++◌, arith, inl, inr,
}
use linux_dynamic_memory_all.Prelude.Tests.{ltb, ◌==◌, Bool-cases}
use linux_dynamic_memory_all.Prelude.Lists.{length}
use linux_dynamic_memory_all.Text.{Text, codes, find}
use linux_dynamic_memory_all.Text.Laws.{take-append, drop-append}
use linux_dynamic_memory_all.Text.Number.{is_digit, decimal, decimal_from}
use linux_dynamic_memory_all.Text.Decimal.{decimal_from-head}
use linux_dynamic_memory_all.Web.Field.{
  is_blank, onto, skip_blanks, read_quoted, read_bare, read_value, value_at, search, search_key,
  parse_json_field,
}

-- `JSON.stringify({ pid: n, signal: name })`.
abbrev pub signal_body : ℕ → Text → Text
signal_body n name =
    codes "{\"pid\":" ++ (decimal n ++ (codes ",\"signal\":\"" ++ (name ++ codes "\"}")))

abbrev pub all_digits : Text → Bool
all_digits [] = true
all_digits (c ∷ t) = is_digit c && all_digits t

-- Neither '"' nor '\\'.
abbrev pub is_plain : Text → Bool
is_plain [] = true
is_plain (c ∷ t) = not (c == 34) && not (c == 92) && is_plain t

decimal_from-digits :
    (fuel n : ℕ) (rest : Text)
    → all_digits rest ≡ true
    → all_digits (decimal_from fuel n rest) ≡ true
unfolding decimal_from
decimal_from-digits zero n rest h = ground arith
decimal_from-digits (suc fuel) n rest h =
    let ih = decimal_from-digits fuel (n / 10) ((48 + n % 10) ∷ rest) (ground arith) in
    elim (Bool-cases (ltb n 10)) [ inl b ↦ rw b (ground arith) | inr b ↦ rw b ih ]

length-decimal_from :
    (k fuel n : ℕ) (rest : Text)
    → n < 10 ^ suc k
    → length (decimal_from fuel n rest) ≤ suc k + length rest
unfolding decimal_from
length-decimal_from k zero n rest lt = omega arith
length-decimal_from zero (suc fuel) n rest lt =
    let b : ltb n 10 ≡ true = ground arith in rw b (omega arith)
length-decimal_from (suc k) (suc fuel) n rest lt =
    let e = pow-suc 10 (suc k) in
    let ih = length-decimal_from k fuel (n / 10) ((48 + n % 10) ∷ rest) (omega arith) in
    elim (Bool-cases (ltb n 10)) [ inl b ↦ rw b (omega arith) | inr b ↦ rw b (omega (arith, ih)) ]

read_bare-digits :
    (room : ℕ) (t r : Text)
    → all_digits t ≡ true
    → length t ≤ room
    → read_bare room (t ++ (44 ∷ r)) ≡ t
read_bare-digits zero [] r h le = refl
read_bare-digits zero (c ∷ t) r h le = absurd (ground arith)
read_bare-digits (suc room) [] r h le = refl
read_bare-digits (suc room) (c ∷ t) r h le = ground (arith, read_bare-digits room t r)

read_quoted-plain :
    (room : ℕ) (t r : Text)
    → is_plain t ≡ true
    → length t ≤ room
    → read_quoted room (t ++ (34 ∷ 125 ∷ r)) ≡ t
read_quoted-plain zero [] r h le = refl
read_quoted-plain zero (c ∷ t) r h le = absurd (ground arith)
read_quoted-plain (suc room) [] r h le = refl
read_quoted-plain (suc room) (c ∷ []) r h le = ground (arith, read_quoted-plain room [] r)
read_quoted-plain (suc room) (c ∷ d ∷ t) r h le = ground (arith, read_quoted-plain room (d ∷ t) r)

find-digits :
    (s d t : Text) (k : ℕ)
    → all_digits d ≡ true
    → find (34 ∷ s) t ≡ some k
    → find (34 ∷ s) (d ++ t) ≡ some (length d + k)
find-digits s [] t k h e = e ∙ ap some (omega arith)
find-digits s (c ∷ d) t k h e =
    let n : (34 == c) ≡ false = ground arith in
    rw (n, find-digits s d t k (ground arith) e) (ap some (omega arith))

onto-snoc : (s b : Text) (c : ℕ) → onto (s ++ (c ∷ [])) b ≡ c ∷ onto s b
onto-snoc [] b c = refl
onto-snoc (x ∷ s) b c = onto-snoc s (x ∷ b) c

-- The first occurrence of the search key is a key, behind `a`.
search-found :
    (fuel room : ℕ) (sk a after v : Text)
    → find sk (a ++ (sk ++ after)) ≡ some (length a)
    → value_at (onto a []) after ≡ some v
    → search (suc fuel) sk room [] (a ++ (sk ++ after)) ≡ read_value room v
unfolding search
search-found fuel room sk a after v e f =
    rw
      (search, e, drop-append a (sk ++ after), take-append a (sk ++ after), drop-append sk after, f)
      refl

read_value-digits :
    (c : ℕ) (t r : Text)
    → is_digit c ≡ true
    → all_digits (c ∷ t) ≡ true
    → length (c ∷ t) ≤ 31
    → read_value 31 (skip_blanks ((c ∷ t) ++ (44 ∷ r))) ≡ c ∷ t
read_value-digits c t r d h le =
    let b : is_blank c ≡ false = ground arith in
    let q : (c == 34) ≡ false = ground arith in rw (b, q) (read_bare-digits 31 (c ∷ t) r h le)

pub parse_json_field-pid :
    (n : ℕ) (name : Text)
    → n < 10 ^ 7
    → parse_json_field (signal_body n name) (codes "pid") 32 ≡ decimal n
unfolding parse_json_field decimal
parse_json_field-pid n name lt =
    let (c, t, e, d) = decimal_from-head n n [] in
    let h : all_digits (c ∷ t) ≡ true = sym (ap all_digits e) ∙ decimal_from-digits n n [] refl in
    let l : length (c ∷ t) ≤ 7 = omega (arith, length-decimal_from 6 n n [] lt, ap length e) in
    rw e (read_value-digits c t (codes "\"signal\":\"" ++ (name ++ codes "\"}")) d h (omega arith))

append-snoc : (s t : Text) (c : ℕ) → s ++ (c ∷ t) ≡ (s ++ (c ∷ [])) ++ t
append-snoc [] t c = refl
append-snoc (x ∷ s) t c = ap (λ (r : Text). x ∷ r) (append-snoc s t c)

length-snoc : (s : Text) (c : ℕ) → length (s ++ (c ∷ [])) ≡ length s + 1
length-snoc [] c = refl
length-snoc (x ∷ s) c = ap suc (length-snoc s c) ∙ omega arith

-- The text before the key "signal", and the text behind it.
abbrev before_signal : ℕ → Text
before_signal n = codes "{\"pid\":" ++ (decimal n ++ codes ",")

abbrev after_signal : Text → Text
after_signal name = codes ":\"" ++ (name ++ codes "\"}")

find-signal :
    (n : ℕ) (name : Text)
    → find
        (search_key (codes "signal"))
        (before_signal n ++ (search_key (codes "signal") ++ after_signal name))
      ≡ some (length (before_signal n))
unfolding decimal
find-signal n name =
    let r = search_key (codes "signal") ++ after_signal name in
    let e : find (search_key (codes "signal")) (decimal n ++ (44 ∷ r))
        ≡ some (length (decimal n) + 1) =
      find-digits (codes "signal" ++ (34 ∷ [])) (decimal n) (44 ∷ r) 1
        (decimal_from-digits n n [] refl) refl in
    rw (← append-snoc (decimal n) r 44, e, length-snoc (decimal n) 44) refl

pub parse_json_field-signal :
    (n : ℕ) (name : Text)
    → is_plain name ≡ true
    → length name ≤ 31
    → parse_json_field (signal_body n name) (codes "signal") 32 ≡ name
unfolding parse_json_field
parse_json_field-signal n name h le =
    let v = 34 ∷ (name ++ codes "\"}") in
    let f : value_at (onto (before_signal n) []) (after_signal name) ≡ some v =
      rw (onto-snoc (decimal n) (58 ∷ 34 ∷ 100 ∷ 105 ∷ 112 ∷ 34 ∷ 123 ∷ []) 44) refl in
    let s =
      search-found (length (signal_body n name)) 31 (search_key (codes "signal")) (before_signal n)
        (after_signal name) v (find-signal n name) f in
    let split : signal_body n name
        ≡ before_signal n ++ (search_key (codes "signal") ++ after_signal name) =
      ap (λ (r : Text). codes "{\"pid\":" ++ r)
        (append-snoc (decimal n) (search_key (codes "signal") ++ after_signal name) 44) in
    ap
      (λ (b : Text).
        search (suc (length (signal_body n name))) (search_key (codes "signal")) 31 [] b)
      split
    ∙ s
    ∙ read_quoted-plain 31 name [] h le
