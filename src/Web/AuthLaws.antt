-- ===== src/Web/AuthLaws.antt =====
-- `check_auth` of src/monitor/gui_server.c grants a request by its header lines.
use linux_dynamic_memory_all.Prelude.{
  ℕ, zero, suc, ◌+◌, ◌-◌, ◌≡◌, ◌≤◌, ◌<◌, refl, ap, sym, ◌∙◌, Bool, true, false, not, ◌&&◌, ◌||◌,
  some, List, [], ◌∷◌, ◌++◌, arith, inl, inr,
}
use linux_dynamic_memory_all.Prelude.Tests.{ltb, leb, ◌==◌, if◌then◌else◌, Bool-cases, ==→eq}
use linux_dynamic_memory_all.Prelude.Lists.{length, All}
use linux_dynamic_memory_all.Text.{Text, find, drop, starts, starts_nocase, same}
use linux_dynamic_memory_all.Text.Laws.{same→eq}
use linux_dynamic_memory_all.Web.Compare.{constant_time_streq-same}
use linux_dynamic_memory_all.Web.Auth.{
  crlf, blank_line, token_header, bearer_header, value_is, line_grants, check_lines, check_auth,
}

-- A header line: not empty, with no carriage return.
abbrev pub no_return : Text → Bool
no_return [] = true
no_return (c ∷ t) = not (c == 13) && no_return t

abbrev pub is_line : Text → Bool
is_line l = not (length l == 0) && no_return l

-- The request with the header lines `l` and `ls` and the body `body`.
abbrev pub request : Text → List Text → Text → Text
request l [] body = l ++ (13 ∷ 10 ∷ 13 ∷ 10 ∷ body)
request l (m ∷ ls) body = l ++ (13 ∷ 10 ∷ request m ls body)

abbrev pub are_lines : List Text → Bool
are_lines [] = true
are_lines (l ∷ ls) = is_line l && are_lines ls

-- The line gives the token under one of the two names.
abbrev pub gives : Text → Text → Bool
gives token line =
    if ltb 14 (length line) && starts_nocase token_header line
    then same (drop 14 line) token
    else if ltb 22 (length line) && starts_nocase bearer_header line
    then same (drop 22 line) token
    else false

abbrev pub any_gives : Text → List Text → Bool
any_gives token [] = false
any_gives token (l ∷ ls) = gives token l || any_gives token ls

find-crlf : (l t : Text) → no_return l ≡ true → find crlf (l ++ (13 ∷ 10 ∷ t)) ≡ some (length l)
find-crlf [] t h = refl
find-crlf (x ∷ l) t h =
    let e : (13 == x) ≡ false = ground arith in rw (e, find-crlf l t (ground arith)) refl

-- The blank line is not within a line and the next.
find_blank :
    (l t : Text) (n : ℕ)
    → no_return l ≡ true
    → starts (13 ∷ 10 ∷ []) t ≡ false
    → find blank_line t ≡ some n
    → find blank_line (l ++ (13 ∷ 10 ∷ t)) ≡ some (length l + 2 + n)
find_blank [] t n h s f = rw (s, f) (ap some (omega arith))
find_blank (x ∷ l) t n h s f =
    let e : (13 == x) ≡ false = ground arith in
    rw (e, find_blank l t n (ground arith) s f) (ap some (omega arith))

find_blank_here :
    (l t : Text)
    → no_return l ≡ true
    → find blank_line (l ++ (13 ∷ 10 ∷ 13 ∷ 10 ∷ t)) ≡ some (length l)
find_blank_here [] t h = refl
find_blank_here (x ∷ l) t h =
    let e : (13 == x) ≡ false = ground arith in rw (e, find_blank_here l t (ground arith)) refl

starts_nocase-append :
    (s l t : Text) → length s ≤ length l → starts_nocase s (l ++ t) ≡ starts_nocase s l
starts_nocase-append [] l t le = refl
starts_nocase-append (x ∷ s) [] t le = absurd (ground arith)
starts_nocase-append (x ∷ s) (y ∷ l) t le = rw (starts_nocase-append s l t (ground arith)) refl

drop-append_le : (n : ℕ) (l t : Text) → n ≤ length l → drop n (l ++ t) ≡ drop n l ++ t
drop-append_le zero l t le = refl
drop-append_le (suc n) [] t le = absurd (ground arith)
drop-append_le (suc n) (x ∷ l) t le = drop-append_le n l t (ground arith)

length-drop : (n : ℕ) (l : Text) → n ≤ length l → length (drop n l) ≡ length l - n
length-drop zero l le = omega arith
length-drop (suc n) [] le = absurd (ground arith)
length-drop (suc n) (x ∷ l) le = length-drop n l (ground arith) ∙ omega arith

same-length : (s t : Text) → (length s == length t) ≡ false → same s t ≡ false
same-length s t ne = elim (Bool-cases (same s t)) [
  | inl e ↦ absurd (let k = ap length (same→eq s t e) in ground arith)
  | inr e ↦ e
]

All-drop :
    (n : ℕ) (l t : Text)
    → n ≤ length l
    → All (λ c. c < 256) (l ++ t)
    → All (λ c. c < 256) (drop n l ++ t)
All-drop zero l t le b = b
All-drop (suc n) [] t le b = absurd (ground arith)
All-drop (suc n) (x ∷ l) t le (h, b) = All-drop n l t (ground arith) b

guard_append :
    (n : ℕ) (s l t : Text)
    → length s ≤ n
    → (ltb n (length l) && starts_nocase s (l ++ t)) ≡ (ltb n (length l) && starts_nocase s l)
guard_append n s l t le = elim (Bool-cases (ltb n (length l))) [
  | inl e ↦ rw e (starts_nocase-append s l t (ground arith))
  | inr e ↦ rw e refl
]

guard_le : (n m : ℕ) (b : Bool) → (ltb n m && b) ≡ true → n ≤ m
guard_le n m b e = ground arith

-- The length of the header lines, with the line ends between them.
abbrev pub lines_length : Text → List Text → ℕ
lines_length l [] = length l
lines_length l (m ∷ ls) = length l + 2 + lines_length m ls

pub header_len_of-request :
    (l : Text) (ls : List Text) (body : Text)
    → are_lines (l ∷ ls) ≡ true
    → find blank_line (request l ls body) ≡ some (lines_length l ls)
header_len_of-request l [] body h = find_blank_here l body (ground arith)
header_len_of-request l ([] ∷ ls) body h = absurd (ground arith)
header_len_of-request l ((x ∷ m) ∷ []) body h =
    let e : (13 == x) ≡ false = ground arith in
    find_blank l (request (x ∷ m) [] body) (length (x ∷ m)) (ground arith) (rw e refl)
      (header_len_of-request (x ∷ m) [] body (ground arith))
header_len_of-request l ((x ∷ m) ∷ k ∷ ls) body h =
    let e : (13 == x) ≡ false = ground arith in
    find_blank l (request (x ∷ m) (k ∷ ls) body) (lines_length (x ∷ m) (k ∷ ls)) (ground arith)
      (rw e refl) (header_len_of-request (x ∷ m) (k ∷ ls) body (ground arith))

length-append : (s t : Text) → length (s ++ t) ≡ length s + length t
length-append [] t = omega arith
length-append (x ∷ s) t = ground (arith, length-append s t)

lines_length-le :
    (l : Text) (ls : List Text) (body : Text) → lines_length l ls ≤ length (request l ls body)
lines_length-le l [] body = omega (arith, length-append l (13 ∷ 10 ∷ 13 ∷ 10 ∷ body))
lines_length-le l (m ∷ ls) body =
    ground (arith, length-append l (13 ∷ 10 ∷ request m ls body), lines_length-le m ls body)

drop_line : (l t : Text) → drop (length l + 2) (l ++ (13 ∷ 10 ∷ t)) ≡ t
drop_line [] t = refl
drop_line (x ∷ l) t =
    let e : suc (length l) + 2 ≡ suc (length l + 2) = omega arith in rw e (drop_line l t)

All-behind : (l t : Text) → All (λ c. c < 256) (l ++ (13 ∷ 10 ∷ t)) → All (λ c. c < 256) t
All-behind [] t (a, (b, h)) = h
All-behind (x ∷ l) t (a, h) = All-behind l t h

module _ (token : Text) (token_bytes : All (λ c. c < 256) token) where
  value_is-same :
      (l t : Text) (n : ℕ)
      → All (λ c. c < 256) (l ++ t)
      → n ≤ length l
      → value_is token (l ++ t) (length l) n ≡ same (drop n l) token
  value_is-same l t n bytes le =
      let d = length-drop n l le in
      elim (Bool-cases (length l - n == length token)) [
        | inl e ↦
            let q : length (drop n l) ≡ length token = d ∙ ==→eq (length l - n) (length token) e in
            rw (e, drop-append_le n l t le)
              (constant_time_streq-same (drop n l) token t (All-drop n l t le bytes) token_bytes q)
        | inr e ↦ rw e (sym (same-length (drop n l) token (ground arith)))
      ]

  line_grants-gives :
      (l t : Text)
      → All (λ c. c < 256) (l ++ t)
      → line_grants token (l ++ t) (length l) ≡ gives token l
  line_grants-gives l t bytes =
      rw
        (
          guard_append 14 token_header l t (omega arith),
          guard_append 22 bearer_header l t (omega arith),
        )
        (elim (Bool-cases (ltb 14 (length l) && starts_nocase token_header l)) [
          | inl e ↦
              rw e (
                value_is-same l t 14 bytes
                  (guard_le 14 (length l) (starts_nocase token_header l) e))
          | inr e ↦ rw e (elim (Bool-cases (ltb 22 (length l) && starts_nocase bearer_header l)) [
            | inl f ↦ rw f (
                value_is-same l t 22 bytes
                  (guard_le 22 (length l) (starts_nocase bearer_header l) f))
            | inr f ↦ rw f refl
          ])
        ])

  check_lines-any_gives :
      (fuel : ℕ) (l : Text) (ls : List Text) (body : Text)
      → are_lines (l ∷ ls) ≡ true
      → All (λ c. c < 256) (request l ls body)
      → lines_length l ls < fuel
      → check_lines fuel token (request l ls body) (lines_length l ls) ≡ any_gives token (l ∷ ls)
  unfolding check_lines
  check_lines-any_gives zero l ls body h bytes lt = absurd (omega arith)
  check_lines-any_gives (suc fuel) l [] body h bytes lt =
      let z : (length l == 0) ≡ false = ground arith in
      let e : leb (length l) (length l) ≡ true = ground arith in
      rw
        (
          z,
          find-crlf l (13 ∷ 10 ∷ body) (ground arith),
          e,
          line_grants-gives l (13 ∷ 10 ∷ 13 ∷ 10 ∷ body) bytes,
        )
        (ground arith)
  check_lines-any_gives (suc fuel) l (m ∷ ls) body h bytes lt =
      let z : (length l + 2 + lines_length m ls == 0) ≡ false = ground arith in
      let e : leb (length l + 2 + lines_length m ls) (length l) ≡ false = ground arith in
      let f : length l + 2 + lines_length m ls - (length l + 2) ≡ lines_length m ls = omega arith in
      let ih =
        check_lines-any_gives fuel m ls body (ground arith) (All-behind l (request m ls body) bytes)
          (omega arith) in
      rw
        (
          z,
          find-crlf l (request m ls body) (ground arith),
          e,
          drop_line l (request m ls body),
          f,
          ih,
          line_grants-gives l (13 ∷ 10 ∷ request m ls body) bytes,
        )
        (ground arith)

  -- For a token of bytes that is not empty, and a request made of lines of bytes, which are not
  -- empty and have no carriage return, a blank line and a body, check_auth grants the request just
  -- if one of the lines is one of the two header names followed by the token and nothing else.
  pub check_auth-any_gives :
      (l : Text) (ls : List Text) (body : Text)
      → 0 < length token
      → are_lines (l ∷ ls) ≡ true
      → All (λ c. c < 256) (request l ls body)
      → check_auth token (request l ls body) ≡ any_gives token (l ∷ ls)
  unfolding check_auth
  check_auth-any_gives l ls body pos h bytes =
      let z : (length token == 0) ≡ false = ground arith in
      rw (z, header_len_of-request l ls body h)
        (check_lines-any_gives (suc (length (request l ls body))) l ls body h bytes
          (omega (arith, lines_length-le l ls body)))
