-- ===== src/Proc.antt =====
-- src/monitor/proc_parser.c and include/proc_parser.h, the snapshot of the processes. The texts of
-- /proc are read by `sscanf`: what a file says is a parameter.
pub mod ReadProcess
pub mod ReadProcessLaws
pub mod MemInfo
pub mod Snapshot
pub mod SnapshotLaws
pub mod Usage
pub mod Cpu
pub mod CpuLaws
mod Tests
use linux_dynamic_memory_all.Prelude.{ℕ, Bool}
use linux_dynamic_memory_all.Text.{Text}
use linux_dynamic_memory_all.Text.Number.{ℤ}

-- C's `float`, for the percentages: the conversion of a number, division and multiplication.
pub record Floats : Type 1 where
  pub Float : Type 0
  pub of_ℕ : ℕ → Float
  pub div : Float → Float → Float
  pub mul : Float → Float → Float

-- The fields of `process_info_t` that the monitor computes with.
pub record Process (F : Type 0) : Type 0 where
  pub pid : ℤ
  pub comm : Text
  pub total_time : ℕ
  pub cpu_usage_pct : F
  pub vm_rss_kb : ℕ
  pub mem_usage_pct : F
