-- ===== src/Proc/CpuLaws.antt =====
-- The differences that `proc_parser_read_cpu` of src/monitor/proc_parser.c computes.
use linux_dynamic_memory_all.Prelude.{ℕ, ◌+◌, ◌-◌, ◌≡◌, ◌≤◌, ◌<◌, refl, arith}
use linux_dynamic_memory_all.Prelude.Tests.{ltb, if◌then◌else◌}
use linux_dynamic_memory_all.Proc.Cpu.{Jiffies, total, ull_mod, since, deltas}

-- No counter of `prev` is above that of `curr`.
pub record IsLater (curr prev : Jiffies) : Type 0 where
  pub user_le : prev.user ≤ curr.user
  pub nice_le : prev.nice ≤ curr.nice
  pub system_le : prev.system ≤ curr.system
  pub idle_le : prev.idle ≤ curr.idle
  pub iowait_le : prev.iowait ≤ curr.iowait
  pub irq_le : prev.irq ≤ curr.irq
  pub softirq_le : prev.softirq ≤ curr.softirq
  pub steal_le : prev.steal ≤ curr.steal

abbrev pub sum : Jiffies → ℕ
sum j = j.user + j.nice + j.system + j.idle + j.iowait + j.irq + j.softirq + j.steal

total-small : (j : Jiffies) → sum j < ull_mod → total j ≡ sum j
total-small j lt = ground arith

since_le : (new old : ℕ) → old ≤ new → since new old ≡ new - old
since_le new old le = ground arith

busy_lem : (i t : ℕ) → i ≤ t → (if ltb i t then t - i else 0) ≡ t - i
busy_lem i t le = ground arith

sum_le : (curr prev : Jiffies) → IsLater curr prev → sum prev ≤ sum curr
sum_le curr prev l = omega (
  arith, l.user_le, l.nice_le, l.system_le, l.idle_le, l.iowait_le, l.irq_le, l.softirq_le,
  l.steal_le,
)

parts_le :
    (curr prev : Jiffies)
    → IsLater curr prev
    → (curr.user - prev.user) + (curr.system - prev.system) + (curr.idle - prev.idle)
      ≤ sum curr - sum prev
parts_le curr prev l = omega (
  arith, l.user_le, l.nice_le, l.system_le, l.idle_le, l.iowait_le, l.irq_le, l.softirq_le,
  l.steal_le,
)

share_lem : (a i t : ℕ) → a + i ≤ t → (t - i + i ≡ t) × (a ≤ t - i)
share_lem a i t le = (omega arith, omega arith)

-- For counters of which none is below its last value, and whose sum is below 2 ^ 64,
-- proc_parser_read_cpu finds the ticks passed; the busy and the idle ones add up to them, and
-- those of users and the system are at most the busy ones.
pub deltas-bounds :
    (curr prev : Jiffies)
    → IsLater curr prev
    → sum curr < ull_mod
    → let d = deltas curr prev in
      (d.delta_total ≡ sum curr - sum prev)
      × (d.busy + d.delta_idle ≡ d.delta_total)
      × (d.delta_user + d.delta_system ≤ d.busy)
unfolding deltas
deltas-bounds curr prev l lt =
    let le = sum_le curr prev l in
    let t : since (total curr) (total prev) ≡ sum curr - sum prev =
      rw (total-small curr lt, total-small prev (omega (arith, le)))
        (since_le (sum curr) (sum prev) le) in
    let i = since_le curr.idle prev.idle l.idle_le in
    let p = parts_le curr prev l in
    let b = busy_lem (curr.idle - prev.idle) (sum curr - sum prev) (omega (arith, p)) in
    rw
      (
        t,
        i,
        b,
        since_le curr.user prev.user l.user_le,
        since_le curr.system prev.system l.system_le,
      )
      (let (a, b) = share_lem _ _ _ p in (refl, a, b))
