-- ===== src/Web/Field.antt =====
-- `parse_json_field` of src/monitor/gui_server.c. A scan of the text before a position has that text
-- backwards.
use linux_dynamic_memory_all.Prelude.{
  ℕ, zero, suc, ◌-◌, Bool, true, ◌||◌, Option, none, some, [], ◌∷◌, ◌++◌,
}
use linux_dynamic_memory_all.Prelude.Tests.{leb, ◌==◌, if◌then◌else◌}
use linux_dynamic_memory_all.Prelude.Lists.{length}
use linux_dynamic_memory_all.Text.{Text, find, take, drop}

-- ' ', '\t', '\r' and '\n'.
abbrev pub is_blank : ℕ → Bool
is_blank c = c == 32 || c == 9 || c == 13 || c == 10

abbrev pub skip_blanks : Text → Text
skip_blanks [] = []
skip_blanks (c ∷ t) = if is_blank c then skip_blanks t else c ∷ t

abbrev pub onto : Text → Text → Text
onto [] back = back
onto (c ∷ t) back = onto t (c ∷ back)

-- Nothing but '{' or ',' stands before the key.
abbrev pub key_begins : Text → Bool
key_begins [] = true
key_begins (c ∷ t) = c == 123 || c == 44

-- The rest of the text behind ':' and blanks, if ':' is there.
abbrev pub behind_colon : Text → Option Text
behind_colon [] = none
behind_colon (c ∷ t) = if c == 58 then some (skip_blanks t) else none

-- The characters of a quoted value, as far as `room` goes. A backslash stands for the next character.
abbrev pub read_quoted : ℕ → Text → Text
read_quoted zero t = []
read_quoted (suc room) [] = []
read_quoted (suc room) (c ∷ []) = if c == 34 then [] else c ∷ []
read_quoted (suc room) (c ∷ d ∷ t) =
    let skip = read_quoted room t in
    let next = read_quoted room (d ∷ t) in
    if c == 34 then [] else if c == 92 then d ∷ skip else c ∷ next

abbrev pub ends_value : ℕ → Bool
ends_value c = c == 44 || c == 125 || c == 93 || is_blank c

abbrev pub read_bare : ℕ → Text → Text
read_bare zero t = []
read_bare (suc room) [] = []
read_bare (suc room) (c ∷ t) = if ends_value c then [] else c ∷ read_bare room t

abbrev pub read_value : ℕ → Text → Text
read_value room [] = []
read_value room (c ∷ t) = if c == 34 then read_quoted room t else read_bare room (c ∷ t)

-- `sk_len` and the search key.
abbrev pub search_key : Text → Text
search_key key = 34 ∷ (key ++ (34 ∷ []))

-- The value behind the key that ends before `after`, if it is a key.
abbrev pub value_at : Text → Text → Option Text
value_at back after =
    if key_begins (skip_blanks back) then behind_colon (skip_blanks after) else none

-- The loop, from the position `p`. A round that goes on takes the search key from `p`, so fuel
-- beyond the length of the text is enough.
unfoldable pub search : ℕ → Text → ℕ → Text → Text → Text
search zero sk room back p = []
search (suc fuel) sk room back p =
    let k = find sk p in
    elim k [
      | none ↦ []
      | some k ↦
          let after = drop (length sk) (drop k p) in
          let rest =
            search fuel sk room (onto (take (length sk) (drop k p)) (onto (take k p) back)) after in
          elim (value_at (onto (take k p) back) after) [ none ↦ rest | some v ↦ read_value room v ]
    ]

-- The text left in `out_val`.
unfoldable pub parse_json_field : Text → Text → ℕ → Text
unfolding search
parse_json_field json key max_len =
    if max_len == 0
    then []
    else if leb 128 (length (search_key key))
    then []
    else search (suc (length json)) (search_key key) (max_len - 1) [] json
