-- ===== src/Web/ResponseLaws.antt =====
-- A reader of the head of a message by RFC 9112, and `send_response` of src/monitor/gui_server.c
-- against it.
use linux_dynamic_memory_all.Prelude.{
  ℕ, zero, suc, ◌+◌, ◌≡◌, ◌≤◌, ◌<◌, ◌/◌, ◌%◌, refl, ap, sym, ◌∙◌, true, false, ◌&&◌, Option, none,
  some, List, [], ◌∷◌, ◌++◌, arith, inl, inr,
}
use linux_dynamic_memory_all.Prelude.Tests.{ltb, leb, ◌==◌, if◌then◌else◌, Bool-cases}
use linux_dynamic_memory_all.Prelude.Lists.{length}
use linux_dynamic_memory_all.Text.{Text, codes}
use linux_dynamic_memory_all.Text.Number.{decimal, decimal_from}
use linux_dynamic_memory_all.Web.Auth.{crlf}
use linux_dynamic_memory_all.Web.AuthLaws.{no_return, are_lines}
use linux_dynamic_memory_all.Text.Laws.{append_assoc, append_nil}
use linux_dynamic_memory_all.Web.Send.{
  Client, call_send_all, response_header, send_response, send_all,
}
use linux_dynamic_memory_all.Web.SendLaws.{is_reliable, count_taken, send_all-reliable}

abbrev pub add_line : Text → Option (List Text × Text) → Option (List Text × Text)
add_line l none = none
add_line l (some (ls, body)) = some (l ∷ ls, body)

-- The lines up to the first blank one, and what follows it; `l` has been read of the current line.
unfoldable pub read_head : Text → Text → Option (List Text × Text)
read_head l [] = none
read_head l (c ∷ []) = none
read_head l (c ∷ d ∷ t) =
    let next = add_line l (read_head [] t) in
    let more = read_head (l ++ (c ∷ [])) (d ∷ t) in
    if c == 13 && d == 10 then if length l == 0 then some ([], t) else next else more

-- The lines, each with its end.
abbrev pub join_lines : List Text → Text
join_lines [] = []
join_lines (l ∷ ls) = l ++ (crlf ++ join_lines ls)

read_head-line :
    (acc l t : Text)
    → no_return l ≡ true
    → (length (acc ++ l) == 0) ≡ false
    → read_head acc (l ++ (13 ∷ 10 ∷ t)) ≡ add_line (acc ++ l) (read_head [] t)
unfolding read_head
read_head-line acc [] t nr ne =
    let e : (length acc == 0) ≡ false = rw (append_nil acc) at ne in rw (append_nil acc, e) refl
read_head-line acc (c ∷ []) t nr ne =
    let e : (c == 13) ≡ false = ground arith in
    rw e (
      read_head-line (acc ++ (c ∷ [])) [] t refl (rw (append_nil (acc ++ (c ∷ []))) ne)
      ∙ rw (append_nil (acc ++ (c ∷ []))) refl)
read_head-line acc (c ∷ d ∷ l) t nr ne =
    let e : (c == 13) ≡ false = ground arith in
    let a = append_assoc acc (c ∷ []) (d ∷ l) in
    rw e (read_head-line (acc ++ (c ∷ [])) (d ∷ l) t (ground arith) (rw a ne) ∙ rw a refl)

read_head-join_lines :
    (ls : List Text) (body : Text)
    → are_lines ls ≡ true
    → read_head [] (join_lines ls ++ (13 ∷ 10 ∷ body)) ≡ some (ls, body)
unfolding read_head
read_head-join_lines [] body h = refl
read_head-join_lines (l ∷ ls) body h =
    let e = append_assoc l (13 ∷ 10 ∷ join_lines ls) (13 ∷ 10 ∷ body) in
    rw
      (
        e,
        read_head-line [] l (join_lines ls ++ (13 ∷ 10 ∷ body)) (ground arith) (ground arith),
        read_head-join_lines ls body (ground arith),
      )
      refl

no_return-append :
    (s t : Text) → no_return s ≡ true → no_return t ≡ true → no_return (s ++ t) ≡ true
no_return-append [] t h k = k
no_return-append (c ∷ s) t h k = ground (arith, no_return-append s t)

no_return-decimal_from :
    (fuel n : ℕ) (rest : Text) → no_return rest ≡ true → no_return (decimal_from fuel n rest) ≡ true
unfolding decimal_from
no_return-decimal_from zero n rest h = ground arith
no_return-decimal_from (suc fuel) n rest h =
    let more = no_return-decimal_from fuel (n / 10) ((48 + n % 10) ∷ rest) (ground arith) in
    ground arith

-- The lines of the header.
abbrev pub response_lines : Text → Text → ℕ → List Text → List Text
response_lines status content_type n extra =
    (codes "HTTP/1.1 " ++ status)
    ∷ (codes "Content-Type: " ++ content_type)
    ∷ (codes "Content-Length: " ++ decimal n)
    ∷ codes "Connection: close"
    ∷ extra

response_header-lines :
    (status content_type : Text) (n : ℕ) (extra : List Text)
    → response_header status content_type n (join_lines extra)
      ≡ join_lines (response_lines status content_type n extra) ++ crlf
response_header-lines status content_type n extra = simp append_assoc refl

response_lines-are_lines :
    (status content_type : Text) (n : ℕ) (extra : List Text)
    → no_return status ≡ true
    → no_return content_type ≡ true
    → are_lines extra ≡ true
    → are_lines (response_lines status content_type n extra) ≡ true
unfolding decimal
response_lines-are_lines status content_type n extra hs ht he =
    let d = no_return-decimal_from n n [] refl in ground arith

no_bytes : (t : Text) → ltb 0 (length t) ≡ false → t ≡ []
no_bytes [] e = refl
no_bytes (x ∷ t) e = absurd (ground arith)

-- For a status and a type without a carriage return, extra headers that are lines, a header below
-- 1024 bytes, and a connection on which no call of send fails and as many calls take something as
-- there are bytes, send_response sends what a reader of HTTP messages, with lines up to a blank
-- one and then the body, reads back as the status line, the type, the length of the body, the
-- closing of the connection, the extra headers, and the body.
pub read_head-send_response :
    (status content_type body : Text) (extra : List Text) (c : Client)
    → no_return status ≡ true
    → no_return content_type ≡ true
    → are_lines extra ≡ true
    → length (response_header status content_type (length body) (join_lines extra)) < 1024
    → is_reliable c.results ≡ true
    → length (response_header status content_type (length body) (join_lines extra)) + length body
      ≤ count_taken c.results
    → (message : Text) × ((send_response status content_type body (join_lines extra) c).received
        ≡ c.received ++ message)
      × (read_head [] message ≡ some (response_lines status content_type (length body) extra, body))
unfolding send_response call_send_all
read_head-send_response status content_type body extra c hs ht he small ok enough =
    let header = response_header status content_type (length body) (join_lines extra) in
    let ls = response_lines status content_type (length body) extra in
    let (d1, b1, r1, k1) = send_all-reliable c.results header ok (omega arith) in
    let (d2, b2, r2, k2) =
      send_all-reliable (send_all c.results header).left body r1 (omega arith) in
    let e : leb 1024 (length header) ≡ false = ground arith in
    (
      header ++ body,
      rw e (elim (Bool-cases (ltb 0 (length body))) [
        | inl f ↦ rw (f, b1, b2) (append_assoc c.received header body)
        | inr f ↦
            rw (f, b1)
              (ap (λ (u : Text). c.received ++ u)
                (sym (append_nil header) ∙ ap (λ (u : Text). header ++ u) (sym (no_bytes body f))))
      ]),
      ap (λ (u : Text). read_head [] (u ++ body))
            (response_header-lines status content_type (length body) extra)
          ∙ ap (read_head []) (append_assoc (join_lines ls) crlf body)
          ∙ read_head-join_lines ls body
              (response_lines-are_lines status content_type (length body) extra hs ht he),
    )
