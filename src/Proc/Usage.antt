-- ===== src/Proc/Usage.antt =====
-- The usage that src/monitor/proc_parser.c computes from one snapshot to the next.
use linux_dynamic_memory_all.Prelude.{
  ℕ, zero, suc, ◌-◌, ◌≡◌, ◌<◌, ◌∙◌, sym, inl, inr, refl, Option, none, some, List, [], ◌∷◌,
}
use mathlib.Core.Path.{subst}
use mathlib.Core.Option.{some-injective}
use linux_dynamic_memory_all.Proc.Cpu.{Jiffies, total, since, deltas, ull_mod}
use linux_dynamic_memory_all.Proc.CpuLaws.{IsLater, sum, deltas-bounds}
use linux_dynamic_memory_all.Prelude.Tests.{if◌then◌else◌, option_view, Bool-cases}
use linux_dynamic_memory_all.Prelude.Lists.{All}
use linux_dynamic_memory_all.Text.{Text}
use linux_dynamic_memory_all.Text.Number.{ℤ, sameℤ}
use linux_dynamic_memory_all.Proc.{Floats, Process}
use linux_dynamic_memory_all.Proc.Snapshot.{
  Stat, Basis, Monitor, ProcFs, Snapshot, max_procs, names_pid, pid_of, process_of, process_at,
  find_previous_process_time, cpu_share, proc_parser_take_snapshot,
}
use linux_dynamic_memory_all.Proc.SnapshotLaws.{
  first, times, readable, IsSnapshot, Taken, taken, proc_parser_take_snapshot-Taken,
}

-- The time of the first process with the pid.
abbrev pub time_in : {F : Type 0} → ℤ → List (Process F) → Option ℕ
time_in pid [] = none
time_in pid (p ∷ ps) =
    let rest = time_in pid ps in if sameℤ p.pid pid then some p.total_time else rest

find_previous_process_time-times :
    {F : Type 0} (pid : ℤ) (ps : List (Process F))
    → find_previous_process_time pid (times ps) ≡ time_in pid ps
unfolding find_previous_process_time
find_previous_process_time-times pid [] = refl
find_previous_process_time-times pid (p ∷ ps) = rw (find_previous_process_time-times pid ps) refl

All-first {κ} : {A : Type 0} (P : A → Type κ) (n : ℕ) (xs : List A) → All P xs → All P (first n xs)
All-first P zero xs a = tt
All-first P (suc n) [] a = tt
All-first P (suc n) (x ∷ xs) (p, a) = (p, All-first P n xs a)

-- The usage of a process is the share that it took since the times of the history.
abbrev pub Shared : (floats : Floats) → Basis → (ℤ → Option ℕ) → Process floats.Float → Type 0
Shared floats b before p = p.cpu_usage_pct ≡ cpu_share floats b (before p.pid) p.total_time

readable-Shared :
    (floats : Floats) (b : Basis) (read : ℤ → Option Stat) (names : List Text)
    → All
        (Shared floats b (λ pid. find_previous_process_time pid b.history))
        (readable floats b read names)
unfolding process_at process_of
readable-Shared floats b read [] = tt
readable-Shared floats b read (name ∷ names) =
    let ih = readable-Shared floats b read names in
    elim (Bool-cases (names_pid name)) [
      | inl e ↦ elim (option_view (read (pid_of name))) [
        | inl q ↦ rw (readable, e, q) ih
        | inr (st, q) ↦ rw (readable, e, q) (refl, ih)
      ]
      | inr e ↦ rw (readable, e) ih
    ]

from_Taken :
    (floats : Floats) (fs : ProcFs) (s : Monitor) (sn : Snapshot floats) (s' : Monitor)
    → Taken floats fs s (some sn, s')
    → IsSnapshot floats fs s sn s'
from_Taken floats fs s sn s' (taken _ _ i) = i

snapshot_of :
    (floats : Floats) (fs : ProcFs) (s : Monitor) (sn : Snapshot floats) (s' : Monitor)
    → proc_parser_take_snapshot floats fs s ≡ (some sn, s')
    → IsSnapshot floats fs s sn s'
snapshot_of floats fs s sn s' e =
    from_Taken floats fs s sn s'
      (subst (λ r. Taken floats fs s r) e (proc_parser_take_snapshot-Taken floats fs s))

-- After two snapshots one after the other, with counters in /proc/stat of which none is lower the
-- second time and whose sum is below 2 ^ 64, the usage of each process of the second is its share
-- of the ticks that the sum of the counters grew by between the two readings, by the difference to
-- the time of the first process with its pid in the first, and 0 if there is none.
pub proc_parser_take_snapshot-cpu_share :
    (floats : Floats) (fs fs' : ProcFs) (s s' s'' : Monitor) (sn sn' : Snapshot floats)
    (j j' : Jiffies)
    → fs.stat ≡ some j
    → fs'.stat ≡ some j'
    → IsLater j' j
    → sum j' < ull_mod
    → proc_parser_take_snapshot floats fs s ≡ (some sn, s')
    → proc_parser_take_snapshot floats fs' s' ≡ (some sn', s'')
    → (b : Basis) × (b.delta ≡ sum j' - sum j)
      × (b.cores ≡ s.cpu.sys_core_count)
      × All (Shared floats b (λ pid. time_in pid sn.found.procs)) sn'.found.procs
unfolding deltas
proc_parser_take_snapshot-cpu_share floats fs fs' s s' s'' sn sn' j j' at at' later lt e e' =
    let i = snapshot_of floats fs s sn s' e in
    let k = snapshot_of floats fs' s' sn' s'' e' in
    let b = k.basis in
    let first_j : i.jiffies ≡ j = some-injective i.jiffies j (sym i.read_stat ∙ at) in
    let second_j : k.jiffies ≡ j' = some-injective k.jiffies j' (sym k.read_stat ∙ at') in
    let passed : b.delta ≡ since (total j') (total j) =
      rw (k.ticks, second_j, i.remembered, first_j) refl in
    let (d, _, _) = deltas-bounds j' j later lt in
    let before : (pid : ℤ) → find_previous_process_time pid b.history ≡ time_in pid sn.found.procs =
      λ pid. rw (k.history, i.kept) (find_previous_process_time-times pid sn.found.procs) in
    let all = readable-Shared floats b fs'.read_process k.names in
    (
      b,
      passed ∙ d,
      k.cores ∙ (k.same_cores ∙ i.same_cores),
      rw k.procs_are (
          All-first _ max_procs (readable floats b fs'.read_process k.names) (
            subst
              (λ (h : ℤ → Option ℕ).
                All (Shared floats b h) (readable floats b fs'.read_process k.names))
              (λ i pid. before pid i) all)),
    )
