-- ===== src/Web/Escape.antt =====
-- `escape_json_string` of src/monitor/gui_server.c. Characters are bytes, 1 to 255.
use linux_dynamic_memory_all.Prelude.{ℕ, ◌+◌, ◌/◌, ◌%◌, [], ◌∷◌, ◌++◌}
use linux_dynamic_memory_all.Prelude.Tests.{ltb, ◌==◌, if◌then◌else◌}
use linux_dynamic_memory_all.Prelude.Lists.{length}
use linux_dynamic_memory_all.Text.{Text}

abbrev pub quote : ℕ
quote = 34

abbrev pub backslash : ℕ
backslash = 92

-- A digit of `%x`.
abbrev pub hex_digit : ℕ → ℕ
hex_digit d = if ltb d 10 then 48 + d else 87 + d

-- What is written for the character `c`.
abbrev pub escape_char : ℕ → Text
escape_char c =
    if c == 34
    then 92 ∷ 34 ∷ []
    else if c == 92
    then 92 ∷ 92 ∷ []
    else if c == 8
    then 92 ∷ 98 ∷ []
    else if c == 12
    then 92 ∷ 102 ∷ []
    else if c == 10
    then 92 ∷ 110 ∷ []
    else if c == 13
    then 92 ∷ 114 ∷ []
    else if c == 9
    then 92 ∷ 116 ∷ []
    else if ltb c 32
    then 92 ∷ 117 ∷ 48 ∷ 48 ∷ hex_digit (c / 16) ∷ hex_digit (c % 16) ∷ []
    else c ∷ []

-- The loop, when `idx` bytes have been written.
unfoldable pub escape_from : Text → ℕ → ℕ → Text
escape_from [] idx max_out = []
escape_from (c ∷ input) idx max_out =
    let rest = escape_from input (idx + length (escape_char c)) max_out in
    if ltb (idx + 6) max_out then escape_char c ++ rest else []

-- The text that is left in `out`, before its terminating zero.
unfoldable pub escape_json_string : Text → ℕ → Text
unfolding escape_from
escape_json_string input max_out = escape_from input 0 max_out
