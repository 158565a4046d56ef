-- ===== src/Proc/Cpu.antt =====
-- `proc_parser_read_cpu` of src/monitor/proc_parser.c.
use linux_dynamic_memory_all.Prelude.{ℕ, ◌+◌, ◌-◌, ◌%◌, ◌^◌, Option, none, some}
use linux_dynamic_memory_all.Prelude.Tests.{ltb, leb, if◌then◌else◌}
use linux_dynamic_memory_all.Proc.{Floats}

-- The modulus of `unsigned long long`.
abbrev pub ull_mod : ℕ
ull_mod = 2 ^ 64

-- `cpu_raw_jiffies_t`; `total` is computed.
pub record Jiffies : Type 0 where
  pub user : ℕ
  pub nice : ℕ
  pub system : ℕ
  pub idle : ℕ
  pub iowait : ℕ
  pub irq : ℕ
  pub softirq : ℕ
  pub steal : ℕ

abbrev pub total : Jiffies → ℕ
total j = (j.user + j.nice + j.system + j.idle + j.iowait + j.irq + j.softirq + j.steal) % ull_mod

-- The globals `prev_cpu_jiffies`, `last_system_jiffies_delta` and `sys_core_count`.
pub record CpuState : Type 0 where
  pub prev_cpu_jiffies : Jiffies
  pub last_system_jiffies_delta : ℕ
  pub sys_core_count : ℕ

-- What changed since the last reading.
pub record Deltas : Type 0 where
  pub delta_total : ℕ
  pub delta_idle : ℕ
  pub delta_user : ℕ
  pub delta_system : ℕ
  pub busy : ℕ

-- `new >= old ? new - old : 0`.
abbrev pub since : ℕ → ℕ → ℕ
since new old = if leb old new then new - old else 0

unfoldable pub deltas : Jiffies → Jiffies → Deltas
deltas curr prev =
    let t = since (total curr) (total prev) in
    let i = since curr.idle prev.idle in
    record {
      delta_total = t;
      delta_idle = i;
      delta_user = since curr.user prev.user;
      delta_system = since curr.system prev.system;
      busy = if ltb i t then t - i else 0;
    }

module _ (floats : Floats) where
  -- `cpu_metrics_t`.
  pub record Metrics : Type 0 where
    pub total_usage_pct : floats.Float
    pub user_pct : floats.Float
    pub system_pct : floats.Float
    pub idle_pct : floats.Float
    pub core_count : ℕ

  -- `((float)part / (float)whole) * 100.0f`.
  abbrev pub percent : ℕ → ℕ → floats.Float
  percent part whole =
      floats.mul (floats.div (floats.of_ℕ part) (floats.of_ℕ whole)) (floats.of_ℕ 100)

  unfoldable pub metrics_of : Deltas → ℕ → Metrics
  metrics_of d cores =
      if ltb 0 d.delta_total
      then record {
        total_usage_pct = percent d.busy d.delta_total;
        user_pct = percent d.delta_user d.delta_total;
        system_pct = percent d.delta_system d.delta_total;
        idle_pct = percent d.delta_idle d.delta_total;
        core_count = cores;
      }
      else record {
        total_usage_pct = floats.of_ℕ 0;
        user_pct = floats.of_ℕ 0;
        system_pct = floats.of_ℕ 0;
        idle_pct = floats.of_ℕ 100;
        core_count = cores;
      }

  -- `none` where /proc/stat could not be read or has fewer than four numbers.
  unfoldable pub proc_parser_read_cpu : Option Jiffies → CpuState → Option (Metrics × CpuState)
  unfolding deltas metrics_of
  proc_parser_read_cpu none s = none
  proc_parser_read_cpu (some curr) s =
      let d = deltas curr s.prev_cpu_jiffies in
      some (
        metrics_of d s.sys_core_count,
        record s { prev_cpu_jiffies = curr; last_system_jiffies_delta = d.delta_total },
      )
