-- ===== src/Entry/Laws.antt =====
-- What src/monitor/main.c gives to the web server.
use linux_dynamic_memory_all.Prelude.{
  ℕ, ◌+◌, ◌*◌, ◌≡◌, ◌≤◌, ◌<◌, refl, Bool, true, false, not, ◌||◌, Option, none, some, List, [], ◌∷◌,
  arith,
}
use mathlib.Core.Path.{subst}
use linux_dynamic_memory_all.Prelude.Tests.{ltb, leb, ◌==◌, if_both}
use linux_dynamic_memory_all.Prelude.Lists.{length}
use linux_dynamic_memory_all.Text.{Text, codes, same}
use linux_dynamic_memory_all.Text.Number.{ℤ, pos, negsuc, leℤ, ltℤ, magnitude, strtol, whole}
use linux_dynamic_memory_all.Web.Lifecycle.{refused, max_host_len, max_auth_token_len}
use linux_dynamic_memory_all.Entry.{
  Config, defaults, Argument, flag, wants_value, returns, argument, take_value, Parsed, parsed,
  exits, parse_args, hex_token, generate_random_token, token_of,
}

-- The values fit where they are stored.
record IsValid (c : Config) : Type 0 where
  port_low : 1 ≤ c.port
  port_high : c.port ≤ 65535
  host_fits : length c.bind_host < max_host_len
  token_fits : length c.auth_token < max_auth_token_len

data IsValidArgument : Argument → Type 0 where
  sets : (c : Config) → IsValid c → IsValidArgument (flag c)
  wants : IsValidArgument wants_value
  ends : (n : ℕ) → IsValidArgument (returns n)

data IsValidOption : Option Config → Type 0 where
  bad_value : IsValidOption none
  good_value : (c : Config) → IsValid c → IsValidOption (some c)

data IsValidParsed : Parsed → Type 0 where
  ready : (c : Config) → IsValid c → IsValidParsed (parsed c)
  ended : (n : ℕ) → IsValidParsed (exits n)

argument-IsValidArgument : (a : Text) (c : Config) → IsValid c → IsValidArgument (argument a c)
unfolding argument
argument-IsValidArgument a c v =
    let w : (h j : Bool) → IsValidArgument (flag (record c { headless = h; output_json = j })) =
      λ h j. sets _ (record {
        port_low = v.port_low;
        port_high = v.port_high;
        host_fits = v.host_fits;
        token_fits = v.token_fits;
      }) in
    if_both IsValidArgument (same a (codes "--headless")) (λ e. w true c.output_json)
      (λ e.
        if_both IsValidArgument (same a (codes "--json")) (λ e. w true true)
          (λ e.
            if_both IsValidArgument (same a (codes "--help") || same a (codes "-h")) (λ e. ends 0)
              (λ e.
                if_both IsValidArgument
                  (same a (codes "--port")
                    || same a (codes "--bind")
                    || same a (codes "--host")
                    || same a (codes "--token"))
                  (λ e. wants) (λ e. ends 2))))

port_fits :
    (p : ℤ) → leℤ p 0 ≡ false → ltℤ 65535 p ≡ false → (1 ≤ magnitude p) × (magnitude p ≤ 65535)
port_fits (pos n) a b = (ground arith, ground arith)
port_fits (negsuc n) a b = absurd (ground arith)

take_value-IsValidOption :
    (a value : Text) (c : Config) → IsValid c → IsValidOption (take_value a value c)
unfolding take_value
take_value-IsValidOption a value c v =
    let p = (strtol value).value in
    if_both IsValidOption (same a (codes "--port"))
      (λ e.
        if_both IsValidOption (not (whole (strtol value)) || leℤ p 0 || ltℤ 65535 p)
          (λ f. bad_value)
          (λ f.
            let (low, high) = port_fits p (ground (arith, f)) (ground (arith, f)) in
            good_value _ (record {
              port_low = low;
              port_high = high;
              host_fits = v.host_fits;
              token_fits = v.token_fits;
            })))
      (λ e.
        if_both IsValidOption (same a (codes "--bind") || same a (codes "--host"))
          (λ e.
            if_both IsValidOption (leb max_host_len (length value)) (λ f. bad_value)
              (λ f. good_value _ (record {
                port_low = v.port_low;
                port_high = v.port_high;
                host_fits = ground (arith, f);
                token_fits = v.token_fits;
              })))
          (λ e.
            if_both IsValidOption (leb max_auth_token_len (length value)) (λ f. bad_value)
              (λ f. good_value _ (record {
                port_low = v.port_low;
                port_high = v.port_high;
                host_fits = v.host_fits;
                token_fits = ground (arith, f);
              }))))

parse_args-IsValidParsed :
    (args : List Text) (c : Config) → IsValid c → IsValidParsed (parse_args args c)
unfolding parse_args
parse_args-IsValidParsed [] c v = ready c v
parse_args-IsValidParsed (a ∷ []) c v = last (argument a c) (argument-IsValidArgument a c v)
  where
    last :
        (x : Argument)
        → IsValidArgument x
        → IsValidParsed
            (elim x [ flag c' ↦ parsed c' | wants_value ↦ exits 2 | returns n ↦ exits n ])
    last (flag c') (sets _ v') = ready c' v'
    last wants_value wants = ended 2
    last (returns n) (ends _) = ended n
parse_args-IsValidParsed (a ∷ value ∷ rest) c v =
    go (argument a c) (argument-IsValidArgument a c v) (parse_args-IsValidParsed (value ∷ rest))
      (parse_args-IsValidParsed rest)
  where
    next :
        (o : Option Config)
        → IsValidOption o
        → ((c' : Config) → IsValid c' → IsValidParsed (parse_args rest c'))
        → IsValidParsed (elim o [ none ↦ exits 2 | some c' ↦ parse_args rest c' ])
    next none bad_value ih = ended 2
    next (some c') (good_value _ v') ih = ih c' v'

    go :
        (x : Argument)
        → IsValidArgument x
        → ((c' : Config) → IsValid c' → IsValidParsed (parse_args (value ∷ rest) c'))
        → ((c' : Config) → IsValid c' → IsValidParsed (parse_args rest c'))
        → IsValidParsed (elim x [
          | flag c' ↦ parse_args (value ∷ rest) c'
          | wants_value ↦ elim (take_value a value c) [
            | none ↦ exits 2
            | some c' ↦ parse_args rest c'
          ]
          | returns n ↦ exits n
        ])
    go (flag c') (sets _ v') ih ih' = ih c' v'
    go wants_value wants ih ih' =
        next (take_value a value c) (take_value-IsValidOption a value c v) ih'
    go (returns n) (ends _) ih ih' = ended n

length-hex_token :
    (bytes : List ℕ) (p len : ℕ)
    → p + 2 * length bytes < len
    → length (hex_token bytes p len) ≡ 2 * length bytes
unfolding hex_token
length-hex_token [] p len lt = refl
length-hex_token (b ∷ bytes) p len lt =
    let e : ltb (p + 2) len ≡ true = ground arith in
    let ih = length-hex_token bytes (p + 2) len (omega arith) in rw e (omega (arith, ih))

defaults-IsValid : IsValid defaults
defaults-IsValid = record {
  port_low = ground arith;
  port_high = ground arith;
  host_fits = ground arith;
  token_fits = ground arith;
}

of_IsValidParsed : (c : Config) → IsValidParsed (parsed c) → IsValid c
of_IsValidParsed c (ready _ v) = v

-- A token that is not empty and fits.
abbrev IsToken : Text → Type 0
IsToken t = (0 < length t) × (length t < max_auth_token_len)

data IsTokenOption : Option Text → Type 0 where
  no_token : IsTokenOption none
  token : (t : Text) → IsToken t → IsTokenOption (some t)

generate_random_token-IsTokenOption :
    (random : Option (List ℕ))
    → ((bytes : List ℕ) → random ≡ some bytes → length bytes ≡ 32)
    → IsTokenOption (generate_random_token random max_auth_token_len)
unfolding generate_random_token
generate_random_token-IsTokenOption none h = no_token
generate_random_token-IsTokenOption (some bytes) h =
    let n = h bytes refl in
    let l = length-hex_token bytes 0 max_auth_token_len (omega (arith, n)) in
    token _ (omega (arith, n, l), omega (arith, n, l))

token_of-IsTokenOption :
    (random : Option (List ℕ)) (c : Config)
    → ((bytes : List ℕ) → random ≡ some bytes → length bytes ≡ 32)
    → IsValid c
    → IsTokenOption (token_of random c)
unfolding token_of
token_of-IsTokenOption random c h v =
    if_both IsTokenOption (not c.token_provided || length c.auth_token == 0)
      (λ e. generate_random_token-IsTokenOption random h)
      (λ e. token c.auth_token (ground (arith, e), v.token_fits))

of_IsTokenOption : (t : Text) → IsTokenOption (some t) → IsToken t
of_IsTokenOption t (token _ k) = k

not_refused :
    (host t : Text) (port : ℕ)
    → 1 ≤ port
    → port ≤ 65535
    → length host < max_host_len
    → length t < max_auth_token_len
    → refused (some host) (pos port) (some t) ≡ false
not_refused host t port a b d e = ground arith

-- If the 32 random bytes are read in full or not at all, then for all arguments that the program
-- accepts, and the token it then has, the token is not empty, so requests are checked, and
-- gui_server_init does not refuse the host, the port and the token.
pub token_of-refused :
    (args : List Text) (random : Option (List ℕ)) (c : Config) (t : Text)
    → ((bytes : List ℕ) → random ≡ some bytes → length bytes ≡ 32)
    → parse_args args defaults ≡ parsed c
    → token_of random c ≡ some t
    → (0 < length t) × (refused (some c.bind_host) (pos c.port) (some t) ≡ false)
token_of-refused args random c t h p q =
    let v =
      of_IsValidParsed c (
        subst (λ r. IsValidParsed r) p (parse_args-IsValidParsed args defaults defaults-IsValid)) in
    let (some_token, fits) =
      of_IsTokenOption t (subst (λ r. IsTokenOption r) q (token_of-IsTokenOption random c h v)) in
    (some_token, not_refused c.bind_host t c.port v.port_low v.port_high v.host_fits fits)
