-- ===== src/Web/Auth.antt =====
-- `check_auth` of src/monitor/gui_server.c.
use linux_dynamic_memory_all.Prelude.{
  ℕ, zero, suc, ◌+◌, ◌-◌, Bool, true, false, ◌&&◌, Option, none, some, [], ◌∷◌,
}
use linux_dynamic_memory_all.Prelude.Tests.{ltb, leb, ◌==◌, if◌then◌else◌}
use linux_dynamic_memory_all.Prelude.Lists.{length}
use linux_dynamic_memory_all.Text.{Text, codes, find, drop, starts_nocase}
use linux_dynamic_memory_all.Web.Compare.{constant_time_streq}

-- "\r\n" and "\r\n\r\n".
abbrev pub crlf : Text
crlf = 13 ∷ 10 ∷ []

abbrev pub blank_line : Text
blank_line = 13 ∷ 10 ∷ 13 ∷ 10 ∷ []

abbrev pub token_header : Text
token_header = codes "X-Auth-Token: "

abbrev pub bearer_header : Text
bearer_header = codes "Authorization: Bearer "

abbrev pub or_else : Option ℕ → ℕ → ℕ
or_else none n = n
or_else (some k) n = k

abbrev pub at_end : Option ℕ → ℕ → Bool
at_end none left = true
at_end (some k) left = leb left k

-- `header_len`.
abbrev pub header_len_of : Text → ℕ
header_len_of buffer = or_else (find blank_line buffer) (length buffer)

-- The value behind a header's name, on a line of `line_len` bytes at `pos`.
abbrev pub value_is : Text → Text → ℕ → ℕ → Bool
value_is token pos line_len skip =
    line_len - skip == length token && constant_time_streq (drop skip pos) token (length token)

-- The tests of one line.
abbrev pub line_grants : Text → Text → ℕ → Bool
line_grants token pos line_len =
    if ltb 14 line_len && starts_nocase token_header pos
    then value_is token pos line_len 14
    else if ltb 22 line_len && starts_nocase bearer_header pos
    then value_is token pos line_len 22
    else false

-- The loop, at `pos`, with `left` bytes of the header left. A round that goes on takes two bytes or
-- more, so `fuel` beyond `left` is enough.
unfoldable pub check_lines : ℕ → Text → Text → ℕ → Bool
check_lines zero token pos left = false
check_lines (suc fuel) token pos left =
    let line_end = find crlf pos in
    let line_len = or_else line_end left in
    let rest = check_lines fuel token (drop (line_len + 2) pos) (left - (line_len + 2)) in
    if left == 0
    then false
    else if line_grants token pos line_len
    then true
    else if at_end line_end left
    then false
    else rest

unfoldable pub check_auth : Text → Text → Bool
unfolding check_lines
check_auth token buffer =
    if length token == 0
    then true
    else check_lines (suc (length buffer)) token buffer (header_len_of buffer)
