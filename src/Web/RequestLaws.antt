-- ===== src/Web/RequestLaws.antt =====
-- What a request to src/monitor/gui_server.c can make the server send.
use linux_dynamic_memory_all.Prelude.{
  ℕ, suc, ◌+◌, ◌≡◌, ◌≤◌, ◌<◌, inl, inr, refl, Bool, true, false, not, ◌||◌, Option, none, some,
  List, [], ◌∷◌, ◌++◌, arith,
}
use linux_dynamic_memory_all.Prelude.Tests.{ltb, leb, ◌==◌, if◌then◌else◌, Bool-cases}
use linux_dynamic_memory_all.Prelude.Lists.{length, All}
use linux_dynamic_memory_all.Text.{Text, codes, find, drop}
use linux_dynamic_memory_all.Text.Number.{ℤ, pos, negsuc, leℤ, ltℤ, strtol, whole}
use linux_dynamic_memory_all.Signal.{Kill, Sent, signal_send_to_process, signal_parse_name}
use linux_dynamic_memory_all.Signal.Laws.{signal_parse_name-le}
use linux_dynamic_memory_all.Web.Auth.{blank_line, check_auth}
use linux_dynamic_memory_all.Text.Number.{decimal}
use linux_dynamic_memory_all.Text.Decimal.{strtol-decimal, decimal_from-head}
use linux_dynamic_memory_all.Web.AuthLaws.{
  request, are_lines, any_gives, lines_length, check_auth-any_gives, header_len_of-request,
}
use linux_dynamic_memory_all.Web.Field.{parse_json_field}
use linux_dynamic_memory_all.Web.FieldLaws.{
  signal_body, is_plain, parse_json_field-pid, parse_json_field-signal,
}
use linux_dynamic_memory_all.Web.Request.{
  Reply, success, failed, unauthorized, missing_body, missing_pid, invalid_pid, invalid_signal,
  max_pid, dispatch, handle_body, handle_process_signal, or_sigterm,
}

-- Nothing was sent; or, if the request is granted, one signal from 0 to 31 to one process from 2 to
-- 4194304, and the reply says whether `kill` succeeded.
pub data SentOne (granted : Bool) (permitted : Kill → Bool) (sent : Sent)
    : Reply × Sent → Type 0 where
  nothing : (r : Reply) → SentOne granted permitted sent (r, sent)
  one :
      (n sig : ℕ)
      → granted ≡ true
      → 2 ≤ n
      → n ≤ max_pid
      → sig ≤ 31
      → SentOne granted permitted sent (
        if permitted (record { pid = pos n; sig = sig }) then success else failed,
        record { pid = pos n; sig = sig } ∷ sent,
      )

module _ (permitted : Kill → Bool) (sent : Sent) where
  dispatch-SentOne_at :
      (n : ℕ) (o : Option ℕ)
      → 2 ≤ n
      → n ≤ max_pid
      → ((sig : ℕ) → o ≡ some sig → sig ≤ 31)
      → SentOne true permitted sent (dispatch permitted (pos n) o sent)
  unfolding dispatch signal_send_to_process
  dispatch-SentOne_at n none lo hi le = nothing invalid_signal
  dispatch-SentOne_at n (some sig) lo hi le =
      let e : leb n 1 ≡ false = ground arith in rw e (one n sig refl lo hi (le sig refl))

  dispatch-SentOne :
      (p : ℤ) (name : Text)
      → (leℤ p 1 || ltℤ max_pid p) ≡ false
      → SentOne true permitted sent (dispatch permitted p (signal_parse_name name) sent)
  dispatch-SentOne (negsuc n) name h = absurd (ground arith)
  dispatch-SentOne (pos n) name h =
      dispatch-SentOne_at n (signal_parse_name name) (ground arith) (ground arith)
        (signal_parse_name-le name)

  handle_body-SentOne :
      (body : Text) → SentOne true permitted sent (handle_body permitted body sent)
  unfolding handle_body
  handle_body-SentOne body =
      let pid_str = parse_json_field body (codes "pid") 32 in
      let p = strtol pid_str in
      let name = or_sigterm (parse_json_field body (codes "signal") 32) in
      elim (Bool-cases (length pid_str == 0)) [
        | inl e ↦ rw e (nothing missing_pid)
        | inr e ↦ elim (Bool-cases (not (whole p) || leℤ p.value 1 || ltℤ max_pid p.value)) [
          | inl f ↦ rw (e, f) (nothing invalid_pid)
          | inr f ↦ rw (e, f) (dispatch-SentOne p.value name (ground arith))
        ]
      ]

  find-SentOne :
      (buffer : Text) (o : Option ℕ)
      → SentOne true permitted sent (elim o [
        | none ↦ (missing_body, sent)
        | some n ↦ handle_body permitted (drop (n + 4) buffer) sent
      ])
  find-SentOne buffer none = nothing missing_body
  find-SentOne buffer (some n) = handle_body-SentOne (drop (n + 4) buffer)

-- For every token, request and outcome of kill, handle_process_signal sends nothing; or, if
-- check_auth grants the request, it sends one signal from 0 to 31 to one process from 2 to
-- 4194304, and answers with success just if kill succeeds.
pub handle_process_signal-SentOne :
    (token : Text) (permitted : Kill → Bool) (buffer : Text) (sent : Sent)
    → SentOne
        (check_auth token buffer)
        permitted
        sent
        (handle_process_signal token permitted buffer sent)
unfolding handle_process_signal
handle_process_signal-SentOne token permitted buffer sent =
    elim (Bool-cases (check_auth token buffer)) [
      | inl e ↦ rw e (find-SentOne permitted sent buffer (find blank_line buffer))
      | inr e ↦ rw e (nothing unauthorized)
    ]

strtol_value :
    (n : ℕ)
    → n ≤ max_pid
    → strtol (decimal n) ≡ record { value = pos n; rest = []; out_of_range = false }
strtol_value n le = strtol-decimal n (omega arith)

decimal_not_empty : (n : ℕ) → (length (decimal n) == 0) ≡ false
unfolding decimal
decimal_not_empty n = let (c, t, e, d) = decimal_from-head n n [] in rw e (ground arith)

or_sigterm_same : (t : Text) → 0 < length t → or_sigterm t ≡ t
or_sigterm_same [] lt = absurd (ground arith)
or_sigterm_same (c ∷ t) lt = refl

drop_line :
    (k : ℕ) (t r l : Text)
    → drop (k + 4) t ≡ r
    → drop (length l + 2 + k + 4) (l ++ (13 ∷ 10 ∷ t)) ≡ r
drop_line k t r [] e = let q : 0 + 2 + k + 4 ≡ suc (suc (k + 4)) = omega arith in rw q e
drop_line k t r (x ∷ l) e =
    let q : suc (length l) + 2 + k + 4 ≡ suc (length l + 2 + k + 4) = omega arith in
    rw q (drop_line k t r l e)

drop_last : (body l : Text) → drop (length l + 4) (l ++ (13 ∷ 10 ∷ 13 ∷ 10 ∷ body)) ≡ body
drop_last body [] = refl
drop_last body (x ∷ l) =
    let e : suc (length l) + 4 ≡ suc (length l + 4) = omega arith in rw e (drop_last body l)

drop_body :
    (l : Text) (ls : List Text) (body : Text)
    → drop (lines_length l ls + 4) (request l ls body) ≡ body
drop_body l [] body = drop_last body l
drop_body l (m ∷ ls) body =
    drop_line (lines_length m ls) (request m ls body) body l (drop_body m ls body)

handle_body-signal_body :
    (permitted : Kill → Bool) (sent : Sent) (n sig : ℕ) (name : Text)
    → 2 ≤ n
    → n ≤ max_pid
    → is_plain name ≡ true
    → 0 < length name
    → length name ≤ 31
    → signal_parse_name name ≡ some sig
    → handle_body permitted (signal_body n name) sent ≡ (
      if permitted (record { pid = pos n; sig = sig }) then success else failed,
      record { pid = pos n; sig = sig } ∷ sent,
    )
unfolding handle_body dispatch signal_send_to_process
handle_body-signal_body permitted sent n sig name lo hi plain some_name short e =
    let e1 : leb n 1 ≡ false = ground arith in
    let e2 : ltb max_pid n ≡ false = ground arith in
    rw
      (
        parse_json_field-pid n name (omega arith),
        parse_json_field-signal n name plain short,
        decimal_not_empty n,
        strtol_value n hi,
        e1,
        e2,
        or_sigterm_same name some_name,
        e,
        e1,
      )
      refl

-- For a token of bytes that is not empty, a request of lines of bytes of which one gives the
-- token, and the body that the web page sends for a process from 2 to 4194304 and a name of 1 to
-- 31 plain characters that signal_parse_name knows, handle_process_signal sends that signal to
-- that process, once, and answers with the outcome of kill.
pub handle_process_signal-request :
    (token : Text) (permitted : Kill → Bool) (sent : Sent) (l : Text) (ls : List Text) (n sig : ℕ)
    (name : Text)
    → All (λ c. c < 256) token
    → 0 < length token
    → are_lines (l ∷ ls) ≡ true
    → All (λ c. c < 256) (request l ls (signal_body n name))
    → any_gives token (l ∷ ls) ≡ true
    → 2 ≤ n
    → n ≤ max_pid
    → is_plain name ≡ true
    → 0 < length name
    → length name ≤ 31
    → signal_parse_name name ≡ some sig
    → handle_process_signal token permitted (request l ls (signal_body n name)) sent ≡ (
      if permitted (record { pid = pos n; sig = sig }) then success else failed,
      record { pid = pos n; sig = sig } ∷ sent,
    )
unfolding handle_process_signal
handle_process_signal-request token permitted sent l ls n sig name tb tl lines bytes gives lo hi
      plain nl short e =
    rw
      (
        check_auth-any_gives token tb l ls (signal_body n name) tl lines bytes,
        gives,
        header_len_of-request l ls (signal_body n name) lines,
        drop_body l ls (signal_body n name),
      )
      (handle_body-signal_body permitted sent n sig name lo hi plain nl short e)
