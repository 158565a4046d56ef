-- ===== src/Entry.antt =====
-- src/monitor/main.c: the arguments of the program and its token. /dev/urandom is a parameter.
pub mod Codes
pub mod Laws
pub mod Main
pub mod MainLaws
mod Tests
use linux_dynamic_memory_all.Prelude.{
  ℕ, zero, suc, ◌+◌, ◌-◌, ◌/◌, ◌%◌, Bool, true, false, not, ◌&&◌, ◌||◌, Option, none, some, List,
  [], ◌∷◌,
}
use linux_dynamic_memory_all.Prelude.Tests.{ltb, leb, ◌==◌, if◌then◌else◌}
use linux_dynamic_memory_all.Prelude.Lists.{length}
use linux_dynamic_memory_all.Text.{Text, codes, same}
use linux_dynamic_memory_all.Text.Number.{leℤ, ltℤ, magnitude, strtol, whole}
use linux_dynamic_memory_all.Web.Escape.{hex_digit}
use linux_dynamic_memory_all.Web.Lifecycle.{max_host_len, max_auth_token_len}

-- The variables that the arguments set.
pub record Config : Type 0 where
  pub port : ℕ
  pub bind_host : Text
  pub auth_token : Text
  pub token_provided : Bool
  pub headless : Bool
  pub output_json : Bool

abbrev pub defaults : Config
defaults = record {
  port = 8080;
  bind_host = codes "127.0.0.1";
  auth_token = [];
  token_provided = false;
  headless = false;
  output_json = false;
}

-- What an argument is, by itself.
pub data Argument : Type 0 where
  flag : Config → Argument
  wants_value : Argument
  -- The program returns at once.
  returns : ℕ → Argument

unfoldable pub argument : Text → Config → Argument
argument a c =
    if same a (codes "--headless")
    then flag (record c { headless = true })
    else if same a (codes "--json")
    then flag (record c { output_json = true; headless = true })
    else if same a (codes "--help") || same a (codes "-h")
    then returns 0
    else if same a (codes "--port")
        || same a (codes "--bind")
        || same a (codes "--host")
        || same a (codes "--token")
    then wants_value
    else returns 2

-- The value of an option is taken; `none` if it is not valid.
unfoldable pub take_value : Text → Text → Config → Option Config
take_value a value c =
    let r = strtol value in
    if same a (codes "--port")
    then if not (whole r) || leℤ r.value 0 || ltℤ 65535 r.value
      then none
      else some (record c { port = magnitude r.value })
    else if same a (codes "--bind") || same a (codes "--host")
    then if leb max_host_len (length value) then none else some (record c { bind_host = value })
    else if leb max_auth_token_len (length value)
    then none
    else some (record c { auth_token = value; token_provided = true })

-- The end of the arguments, or the program returns.
pub data Parsed : Type 0 where
  parsed : Config → Parsed
  exits : ℕ → Parsed

-- The loop over the arguments, which are behind the name of the program.
unfoldable pub parse_args : List Text → Config → Parsed
unfolding argument take_value
parse_args [] c = parsed c
parse_args (a ∷ []) c = elim (argument a c) [
  | flag c' ↦ parsed c'
  | wants_value ↦ exits 2
  | returns n ↦ exits n
]
parse_args (a ∷ value ∷ rest) c = elim (argument a c) [
  | flag c' ↦ parse_args (value ∷ rest) c'
  | wants_value ↦ elim (take_value a value c) [ none ↦ exits 2 | some c' ↦ parse_args rest c' ]
  | returns n ↦ exits n
]

-- The loop of `generate_random_token`, at `pos` of a buffer of `len` bytes.
unfoldable pub hex_token : List ℕ → ℕ → ℕ → Text
hex_token [] pos len = []
hex_token (b ∷ bytes) pos len =
    let rest = hex_token bytes (pos + 2) len in
    if ltb (pos + 2) len then hex_digit (b / 16 % 16) ∷ hex_digit (b % 16) ∷ rest else []

-- `none` where the 32 bytes could not be read.
unfoldable pub generate_random_token : Option (List ℕ) → ℕ → Option Text
unfolding hex_token
generate_random_token none len = none
generate_random_token (some bytes) len = some (hex_token bytes 0 len)

-- The token that the server is given.
unfoldable pub token_of : Option (List ℕ) → Config → Option Text
unfolding generate_random_token
token_of random c =
    if not c.token_provided || length c.auth_token == 0
    then generate_random_token random max_auth_token_len
    else some c.auth_token
