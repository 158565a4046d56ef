-- ===== src/Signal.antt =====
-- src/monitor/signal_handler.c. The numbers of the signals are those of Linux.
pub mod Laws
use linux_dynamic_memory_all.Prelude.{
  ℕ, ◌+◌, ◌-◌, Bool, true, false, not, ◌&&◌, ◌||◌, Option, none, some, List, [], ◌∷◌,
}
use linux_dynamic_memory_all.Prelude.Tests.{ltb, leb, ◌==◌, if◌then◌else◌}
use linux_dynamic_memory_all.Text.{Text, codes, same}
use linux_dynamic_memory_all.Text.Number.{ℤ, pos, negsuc, leℤ, ltℤ, magnitude, strtol, whole}

abbrev pub sigint : ℕ
sigint = 2

abbrev pub sigkill : ℕ
sigkill = 9

abbrev pub sigterm : ℕ
sigterm = 15

abbrev pub sigcont : ℕ
sigcont = 18

abbrev pub sigstop : ℕ
sigstop = 19

-- A call of `kill`: the process and the signal.
pub record Kill : Type 0 where
  pub pid : ℤ
  pub sig : ℕ

-- The calls of `kill` so far, the latest first.
abbrev pub Sent : Type 0
Sent = List Kill

-- `kill` succeeds for the calls that `permitted` says. The result is whether 0 is returned.
unfoldable pub signal_send_to_process : (Kill → Bool) → ℤ → ℕ → Sent → Bool × Sent
signal_send_to_process permitted pid sig sent =
    let k : Kill = record { pid = pid; sig = sig } in
    if leℤ pid 1 then (false, sent) else (permitted k, k ∷ sent)

-- A test of the value of `strtol` against 0 and 31.
abbrev pub in_range : ℤ → Bool
in_range (pos n) = leb n 31
in_range (negsuc n) = false

-- The number of a signal that is given by its number.
unfoldable pub signal_of_number : Text → Option ℕ
signal_of_number name =
    let r = strtol name in if whole r && in_range r.value then some (magnitude r.value) else none

-- `none` for the return of -1; a NULL name is an empty one.
unfoldable pub signal_parse_name : Text → Option ℕ
unfolding signal_of_number
signal_parse_name [] = some sigterm
signal_parse_name (c ∷ t) =
    let name = c ∷ t in
    if same name (codes "SIGKILL") || same name (codes "9")
    then some sigkill
    else if same name (codes "SIGTERM") || same name (codes "15")
    then some sigterm
    else if same name (codes "SIGSTOP") || same name (codes "19")
    then some sigstop
    else if same name (codes "SIGCONT") || same name (codes "18")
    then some sigcont
    else if same name (codes "SIGINT") || same name (codes "2")
    then some sigint
    else if same name (codes "0")
    then some 0
    else signal_of_number name
