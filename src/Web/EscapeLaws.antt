-- ===== src/Web/EscapeLaws.antt =====
-- A reader of JSON string literals, and `escape_json_string` of src/monitor/gui_server.c against it.
use linux_dynamic_memory_all.Prelude.{
  ℕ, suc, ◌+◌, ◌-◌, ◌*◌, ◌/◌, ◌%◌, ◌≡◌, ◌≤◌, ◌<◌, refl, ap, Bool, true, ◌&&◌, ◌||◌, Option, none,
  some, [], ◌∷◌, ◌++◌, arith, inl, inr,
}
use linux_dynamic_memory_all.Prelude.Tests.{ltb, leb, ◌==◌, if◌then◌else◌, Bool-cases}
use linux_dynamic_memory_all.Prelude.Lists.{length, All}
use linux_dynamic_memory_all.Text.{Text, take}
use linux_dynamic_memory_all.Text.Laws.{take_all}
use linux_dynamic_memory_all.Web.Escape.{hex_digit, escape_char, escape_from, escape_json_string}

abbrev pub is_hex : ℕ → Bool
is_hex c = leb 48 c && leb c 57 || leb 97 c && leb c 102 || leb 65 c && leb c 70

abbrev pub hex_value : ℕ → ℕ
hex_value c = if ltb c 58 then c - 48 else if ltb c 71 then c - 55 else c - 87

abbrev pub plain_escape : ℕ → Option ℕ
plain_escape c =
    if c == 34
    then some 34
    else if c == 92
    then some 92
    else if c == 47
    then some 47
    else if c == 98
    then some 8
    else if c == 102
    then some 12
    else if c == 110
    then some 10
    else if c == 114
    then some 13
    else if c == 116
    then some 9
    else none

abbrev pub add_char : ℕ → Option (Text × Text) → Option (Text × Text)
add_char c none = none
add_char c (some (t, rest)) = some (c ∷ t, rest)

abbrev pub add_escape : Option ℕ → Option (Text × Text) → Option (Text × Text)
add_escape none r = none
add_escape (some c) r = add_char c r

-- Where the reader stands: between characters, behind a backslash, or behind `\\u` and `seen` hex
-- digits of value `value`.
pub data Mode : Type 0 where
  plain : Mode
  escaped : Mode
  hex : (seen value : ℕ) → Mode

-- After RFC 8259: what stands before the closing quote, with its escapes replaced, and what follows
-- the quote. A control character, another escape and a missing quote are refused.
unfoldable pub read_from : Mode → Text → Option (Text × Text)
read_from mode [] = none
read_from plain (c ∷ t) =
    let next = read_from plain t in
    let esc = read_from escaped t in
    if c == 34
    then some ([], t)
    else if c == 92
    then esc
    else if ltb c 32
    then none
    else add_char c next
read_from escaped (c ∷ t) =
    let next = read_from plain t in
    let digits = read_from (hex 0 0) t in
    if c == 117 then digits else add_escape (plain_escape c) next
read_from (hex seen value) (c ∷ t) =
    let next = read_from plain t in
    let more = read_from (hex (seen + 1) (value * 16 + hex_value c)) t in
    if is_hex c
    then (if seen == 3 then add_char (value * 16 + hex_value c) next else more)
    else none

unfoldable pub read_string : Text → Option (Text × Text)
unfolding read_from
read_string t = read_from plain t

-- A byte of a C string.
abbrev pub IsByte : ℕ → Type 0
IsByte c = (0 < c) × (c < 256)

length-escape_char : (c : ℕ) → (0 < length (escape_char c)) × (length (escape_char c) ≤ 6)
length-escape_char c = ground arith

length-append : (s t : Text) → length (s ++ t) ≡ length s + length t
length-append [] t = omega arith
length-append (x ∷ s) t = ground (arith, length-append s t)

hex_digit_lem : (d : ℕ) → d < 16 → (is_hex (hex_digit d) ≡ true) × (hex_value (hex_digit d) ≡ d)
hex_digit_lem d lt = ground arith

-- A control character that is written as a number.
read_from-number :
    (c : ℕ) (t : Text)
    → c < 32
    → read_from escaped (117 ∷ 48 ∷ 48 ∷ hex_digit (c / 16) ∷ hex_digit (c % 16) ∷ t)
      ≡ add_char c (read_from plain t)
unfolding read_from
read_from-number c t lt =
    let (a, b) = hex_digit_lem (c / 16) (omega arith) in
    let (d, e) = hex_digit_lem (c % 16) (omega arith) in
    let g : (0 + c / 16) * 16 + c % 16 ≡ c = omega arith in rw (a, b, d, e, g) refl

read_from-escape_char :
    (c : ℕ) (t : Text)
    → IsByte c
    → read_from plain (escape_char c ++ t) ≡ add_char c (read_from plain t)
unfolding read_from
read_from-escape_char c t (lo, hi) = ground (arith, read_from-number c t)

-- For a buffer that is not empty, what escape_json_string writes fits into it with the terminating
-- zero.
pub length-escape_json_string :
    (input : Text) (max_out : ℕ) → 0 < max_out → length (escape_json_string input max_out) < max_out
unfolding escape_json_string
length-escape_json_string input max_out pos =
    let k = length-escape_from input 0 max_out pos in omega (arith, k)
  where
    length-escape_from :
        (input : Text) (idx max_out : ℕ)
        → idx < max_out
        → idx + length (escape_from input idx max_out) < max_out
    length-escape_from [] idx max_out lt = omega arith
    length-escape_from (c ∷ input) idx max_out lt =
        let (a, b) = length-escape_char c in
        elim (Bool-cases (ltb (idx + 6) max_out)) [
          | inl e ↦
              let ih =
                length-escape_from input (idx + length (escape_char c)) max_out (ground arith) in
              rw
                (
                  e,
                  length-append (escape_char c)
                      (escape_from input (idx + length (escape_char c)) max_out),
                )
                (omega arith)
          | inr e ↦ rw e (omega arith)
        ]

append_assoc : (s t u : Text) → (s ++ t) ++ u ≡ s ++ (t ++ u)
append_assoc [] t u = refl
append_assoc (x ∷ s) t u = ap (λ (r : Text). x ∷ r) (append_assoc s t u)

read_from-escape_from :
    (input rest : Text) (idx max_out : ℕ)
    → All IsByte input
    → (n : ℕ) × (n ≤ length input)
      × (read_from plain (escape_from input idx max_out ++ (34 ∷ rest)) ≡ some (take n input, rest))
      × (idx + 6 * length input < max_out → n ≡ length input)
unfolding escape_from read_from
read_from-escape_from [] rest idx max_out bytes = (0, omega arith, refl, λ h. refl)
read_from-escape_from (c ∷ input) rest idx max_out (byte, bytes) =
    let (a, b) = length-escape_char c in
    elim (Bool-cases (ltb (idx + 6) max_out)) [
      | inl e ↦
          let (n, le, r, all) =
            read_from-escape_from input rest (idx + length (escape_char c)) max_out bytes in
          (
            suc n,
            omega arith,
            rw
                (
                  e,
                  append_assoc (escape_char c)
                      (escape_from input (idx + length (escape_char c)) max_out) (34 ∷ rest),
                  read_from-escape_char c
                      (escape_from input (idx + length (escape_char c)) max_out ++ (34 ∷ rest))
                      byte,
                  r,
                )
                refl,
            λ h. ap suc (all (omega arith)),
          )
      | inr e ↦ (0, omega arith, rw e refl, λ h. absurd (ground arith))
    ]

-- For a string of bytes other than 0 and a buffer of any size, a reader of JSON strings gives a
-- prefix of the string back from what escape_json_string writes, followed by a quote, and leaves
-- what comes after: an escape is never cut.
pub read_string-escape_json_string_prefix :
    (input rest : Text) (max_out : ℕ)
    → All IsByte input
    → (n : ℕ) × (n ≤ length input)
      × (read_string (escape_json_string input max_out ++ (34 ∷ rest)) ≡ some (take n input, rest))
unfolding read_string escape_json_string
read_string-escape_json_string_prefix input rest max_out bytes =
    let (n, le, r, all) = read_from-escape_from input rest 0 max_out bytes in (n, le, r)

-- For a string of bytes other than 0 and a buffer of more than six times its length, a reader of
-- JSON strings gives the string back from what escape_json_string writes, followed by a quote, and
-- leaves what comes after.
pub read_string-escape_json_string :
    (input rest : Text) (max_out : ℕ)
    → All IsByte input
    → 6 * length input < max_out
    → read_string (escape_json_string input max_out ++ (34 ∷ rest)) ≡ some (input, rest)
unfolding read_string escape_json_string
read_string-escape_json_string input rest max_out bytes fits =
    let (n, le, r, all) = read_from-escape_from input rest 0 max_out bytes in
    let e : take n input ≡ input = take_all n input (omega (arith, all (omega arith))) in rw e at r
