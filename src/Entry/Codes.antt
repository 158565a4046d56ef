-- ===== src/Entry/Codes.antt =====
-- The exit codes that the loop over the arguments in `main` of src/monitor/main.c gives.
use linux_dynamic_memory_all.Prelude.{ℕ, ◌≡◌, ◌≤◌, refl, ap, none, some, List, [], ◌∷◌, ◌||◌, arith}
use linux_dynamic_memory_all.Prelude.Tests.{if_both, option_both}
use linux_dynamic_memory_all.Text.{Text, same, codes}
use linux_dynamic_memory_all.Entry.{
  Config, Parsed, parsed, exits, Argument, flag, wants_value, returns, argument, take_value,
  parse_args,
}

-- A property of each case of an argument.
argument_both :
    {X : Type 0} (P : X → Type 0) (r : Argument) (f : Config → X) (w : X) (g : ℕ → X)
    → ((c : Config) → P (f c))
    → P w
    → ((n : ℕ) → r ≡ returns n → P (g n))
    → P (elim r [ flag c ↦ f c | wants_value ↦ w | returns n ↦ g n ])
argument_both P (flag c) f w g pf pw pg = pf c
argument_both P wants_value f w g pf pw pg = pw
argument_both P (returns n) f w g pf pw pg = pg n refl

-- The program returns 0 or 2 because of an argument.
data IsCode : Argument → Type 0 where
  flagged : (c : Config) → IsCode (flag c)
  wanted : IsCode wants_value
  coded : (n : ℕ) → n ≤ 2 → IsCode (returns n)

argument-IsCode : (a : Text) (c : Config) → IsCode (argument a c)
unfolding argument
argument-IsCode a c =
    if_both IsCode (same a (codes "--headless")) (λ e. flagged _)
      (λ e.
        if_both IsCode (same a (codes "--json")) (λ e. flagged _)
          (λ e.
            if_both IsCode (same a (codes "--help") || same a (codes "-h"))
              (λ e. coded 0 (ground arith))
              (λ e.
                if_both IsCode
                  (same a (codes "--port")
                    || same a (codes "--bind")
                    || same a (codes "--host")
                    || same a (codes "--token"))
                  (λ e. wanted) (λ e. coded 2 (ground arith)))))

abbrev code_value : Argument → ℕ
code_value (flag c) = 0
code_value wants_value = 0
code_value (returns n) = n

code_value-le : (r : Argument) → IsCode r → code_value r ≤ 2
code_value-le r (flagged c) = ground arith
code_value-le r wanted = ground arith
code_value-le r (coded n le) = le

-- The arguments are taken, or the program returns 0 or 2.
pub data HasCode : Parsed → Type 0 where
  taken_all : (c : Config) → HasCode (parsed c)
  stopped : (n : ℕ) → n ≤ 2 → HasCode (exits n)

stopped_at : (a : Text) (c : Config) (n : ℕ) → argument a c ≡ returns n → HasCode (exits n)
stopped_at a c n e =
    let q : code_value (argument a c) ≡ n = ap code_value e in
    stopped n (rw (← q) (code_value-le (argument a c) (argument-IsCode a c)))

pub parse_args-HasCode : (args : List Text) (c : Config) → HasCode (parse_args args c)
unfolding parse_args
parse_args-HasCode [] c = taken_all c
parse_args-HasCode (a ∷ []) c =
    argument_both HasCode (argument a c) parsed (exits 2) exits (λ c'. taken_all c')
      (stopped 2 (ground arith)) (stopped_at a c)
parse_args-HasCode (a ∷ value ∷ rest) c =
    argument_both HasCode (argument a c) (λ c'. parse_args (value ∷ rest) c')
      (elim (take_value a value c) [ none ↦ exits 2 | some c' ↦ parse_args rest c' ]) exits
      (λ c'. parse_args-HasCode (value ∷ rest) c')
      (option_both HasCode (take_value a value c) (exits 2) (λ c'. parse_args rest c')
        (λ e. stopped 2 (ground arith)) (λ c' e. parse_args-HasCode rest c'))
      (stopped_at a c)
