-- ===== src/Proc/Tests.antt =====
-- The theorems about src/monitor/proc_parser.c at small snapshots.
use linux_dynamic_memory_all.Prelude.{
  ℕ, ◌+◌, ◌-◌, ◌*◌, ◌≡◌, ◌≤◌, refl, false, none, some, [], ◌∷◌, arith,
}
use linux_dynamic_memory_all.Prelude.Lists.{All}
use linux_dynamic_memory_all.Text.{codes}
use linux_dynamic_memory_all.Text.Number.{pos}
use linux_dynamic_memory_all.Proc.{Floats, Process}
use linux_dynamic_memory_all.Proc.Cpu.{Jiffies, deltas}
use linux_dynamic_memory_all.Proc.CpuLaws.{IsLater, sum, deltas-bounds}
use linux_dynamic_memory_all.Proc.Snapshot.{
  Basis, scan_names, process_at, process_of, cpu_share, find_previous_process_time, Monitor, ProcFs,
  Snapshot, proc_parser_take_snapshot,
}
use linux_dynamic_memory_all.Proc.ReadProcess.{
  Scan, StatNumbers, add_status, stat_info, proc_parser_read_process,
}
use linux_dynamic_memory_all.Proc.ReadProcessLaws.{stat_line, proc_parser_read_process-stat_line}
use linux_dynamic_memory_all.Proc.SnapshotLaws.{Taken, proc_parser_take_snapshot-Taken}
use linux_dynamic_memory_all.Proc.Usage.{Shared, time_in, proc_parser_take_snapshot-cpu_share}

-- Whole numbers in place of C's `float`.
abbrev whole_numbers : Floats
whole_numbers = record { Float = ℕ; of_ℕ = λ n. n; div = λ m n. m; mul = λ m n. m * n }

abbrev jiffies : ℕ → ℕ → Jiffies
jiffies busy idle = record {
  user = busy;
  nice = 0;
  system = 0;
  idle = idle;
  iowait = 0;
  irq = 0;
  softirq = 0;
  steal = 0;
}

jiffies-IsLater : IsLater (jiffies 30 90) (jiffies 10 50)
jiffies-IsLater = record {
  user_le = ground arith;
  nice_le = ground arith;
  system_le = ground arith;
  idle_le = ground arith;
  iowait_le = ground arith;
  irq_le = ground arith;
  softirq_le = ground arith;
  steal_le = ground arith;
}

deltas-bounds_example :
    let d = deltas (jiffies 30 90) (jiffies 10 50) in
    (d.delta_total ≡ sum (jiffies 30 90) - sum (jiffies 10 50))
    × (d.busy + d.delta_idle ≡ d.delta_total)
    × (d.delta_user + d.delta_system ≤ d.busy)
deltas-bounds_example = deltas-bounds (jiffies 30 90) (jiffies 10 50) jiffies-IsLater (ground arith)

-- /proc with one process, of pid 7.
abbrev small_proc : Jiffies → ℕ → ProcFs
small_proc j time = record {
  stat = some j;
  mem_total = some 1000;
  names = some (codes "self" ∷ codes "7" ∷ []);
  read_process =
      λ pid. some (record { stat_comm = codes "sh"; stat_total_time = time; stat_vm_rss_kb = 100 });
}

abbrev first_state : Monitor
first_state = record {
  cpu = record {
    prev_cpu_jiffies = jiffies 0 0;
    last_system_jiffies_delta = 0;
    sys_core_count = 2;
  };
  prev_processes = [];
}

proc_parser_take_snapshot-Taken_example :
    Taken whole_numbers
      (small_proc (jiffies 10 50) 4)
      first_state
      (proc_parser_take_snapshot whole_numbers (small_proc (jiffies 10 50) 4) first_state)
proc_parser_take_snapshot-Taken_example =
    proc_parser_take_snapshot-Taken whole_numbers (small_proc (jiffies 10 50) 4) first_state

-- The process at its time, with the share of the processors since the last snapshot.
abbrev small_process : ℕ → ℕ → Process ℕ
small_process time share = record {
  pid = pos 7;
  comm = codes "sh";
  total_time = time;
  cpu_usage_pct = share;
  vm_rss_kb = 100;
  mem_usage_pct = 10000;
}

abbrev snapshot : ℕ → ℕ → ℕ → ℕ → Snapshot whole_numbers
snapshot busy idle time share = record {
  cpu_metrics = record {
    total_usage_pct = busy * 100;
    user_pct = busy * 100;
    system_pct = 0;
    idle_pct = idle * 100;
    core_count = 2;
  };
  total_kb = 1000;
  found = record {
    procs = small_process time share ∷ [];
    current_processes = (pos 7, time) ∷ [];
    truncated = false;
  };
}

abbrev state_after : Jiffies → ℕ → ℕ → Monitor
state_after j delta time = record {
  cpu = record { prev_cpu_jiffies = j; last_system_jiffies_delta = delta; sys_core_count = 2 };
  prev_processes = (pos 7, time) ∷ [];
}

proc_parser_take_snapshot-cpu_share_example :
    (b : Basis) × (b.delta ≡ 60)
    × (b.cores ≡ 2)
    × All
        (Shared whole_numbers b (λ pid. time_in pid (small_process 4 0 ∷ [])))
        (small_process 9 1000 ∷ [])
unfolding proc_parser_take_snapshot scan_names process_at process_of cpu_share
    find_previous_process_time
proc_parser_take_snapshot-cpu_share_example =
    proc_parser_take_snapshot-cpu_share whole_numbers (small_proc (jiffies 10 50) 4)
      (small_proc (jiffies 30 90) 9) first_state (state_after (jiffies 10 50) 60 4)
      (state_after (jiffies 30 90) 60 9) (snapshot 10 50 4 0) (snapshot 20 40 9 1000)
      (jiffies 10 50) (jiffies 30 90) refl refl jiffies-IsLater (ground arith) refl refl

abbrev small_numbers : StatNumbers
small_numbers = record {
  state = 83;
  ppid = pos 1;
  utime = 20;
  stime = 5;
  priority = pos 20;
  nice = pos 0;
  num_threads = pos 1;
  starttime = 100;
}

abbrev small_scan : Scan
small_scan = record { stat_numbers = λ t. some small_numbers; keyed = λ key line. none }

proc_parser_read_process-stat_line_example :
    proc_parser_read_process small_scan
      (pos 7)
      (some (stat_line 7 (codes "a) (b") (codes "S 1 20 5")))
      none
    ≡ some (add_status small_scan none (stat_info (pos 7) (codes "a) (b") small_numbers))
proc_parser_read_process-stat_line_example =
    proc_parser_read_process-stat_line 7 (codes "a) (b") (codes "S 1 20 5") (ground arith) refl
      (ground arith) small_scan (pos 7) none small_numbers refl
