-- ===== src/Proc/Snapshot.antt =====
-- `proc_parser_take_snapshot` of src/monitor/proc_parser.c.
use linux_dynamic_memory_all.Prelude.{
  ℕ, ◌+◌, ◌-◌, ◌%◌, ◌^◌, Bool, true, false, not, Option, none, some, List, [], ◌∷◌,
}
use linux_dynamic_memory_all.Prelude.Tests.{ltb, leb, if◌then◌else◌}
use linux_dynamic_memory_all.Text.{Text}
use linux_dynamic_memory_all.Text.Number.{ℤ, pos, negsuc, sameℤ, is_digit, strtol}
use linux_dynamic_memory_all.Proc.{Floats, Process}
use linux_dynamic_memory_all.Proc.Cpu.{
  Jiffies, CpuState, Metrics, since, percent, proc_parser_read_cpu,
}

-- MAX_PROCS.
abbrev pub max_procs : ℕ
max_procs = 2048

-- What `proc_parser_read_process` finds of a process.
pub record Stat : Type 0 where
  pub stat_comm : Text
  pub stat_total_time : ℕ
  pub stat_vm_rss_kb : ℕ

-- `prev_processes`: the pid and the time of each process of the last snapshot.
abbrev pub History : Type 0
History = List (ℤ × ℕ)

unfoldable pub find_previous_process_time : ℤ → History → Option ℕ
find_previous_process_time pid [] = none
find_previous_process_time pid ((p, time) ∷ history) =
    let rest = find_previous_process_time pid history in if sameℤ p pid then some time else rest

-- `isdigit` of the first byte of a name in /proc.
abbrev pub names_pid : Text → Bool
names_pid [] = false
names_pid (c ∷ t) = is_digit c

-- The conversion of a `long` to an `int` of 32 bits.
abbrev pub to_int : ℤ → ℤ
to_int (pos n) = let r = n % 2 ^ 32 in if ltb r (2 ^ 31) then pos r else negsuc (2 ^ 32 - 1 - r)
to_int (negsuc n) = let r = n % 2 ^ 32 in if ltb r (2 ^ 31) then negsuc r else pos (2 ^ 32 - 1 - r)

-- `atoi`, which is `strtol` converted to an `int`.
abbrev pub pid_of : Text → ℤ
pid_of name = to_int (strtol name).value

-- What the loop over /proc has collected: the processes, their times and whether it was cut short.
pub record Found (F : Type 0) : Type 0 where
  pub procs : List (Process F)
  pub current_processes : History
  pub truncated : Bool

-- What the percentages of one snapshot are computed with.
pub record Basis : Type 0 where
  pub history : History
  pub delta : ℕ
  pub cores : ℕ
  pub mem_total_kb : ℕ

-- The globals.
pub record Monitor : Type 0 where
  pub cpu : CpuState
  pub prev_processes : History

-- The answers of /proc: /proc/stat, MemTotal of /proc/meminfo, the names, and the files of a process.
pub record ProcFs : Type 0 where
  pub stat : Option Jiffies
  pub mem_total : Option ℕ
  pub names : Option (List Text)
  pub read_process : ℤ → Option Stat

-- `system_snapshot_t`, less the other numbers of /proc/meminfo.
pub record Snapshot (floats : Floats) : Type 0 where
  pub cpu_metrics : Metrics floats
  pub total_kb : ℕ
  pub found : Found floats.Float

module _ (floats : Floats) where
  -- The share of the processors that a process took, since a snapshot that it was in.
  unfoldable pub cpu_share : Basis → Option ℕ → ℕ → floats.Float
  cpu_share b none time = floats.of_ℕ 0
  cpu_share b (some previous) time =
      if ltb 0 b.delta
      then floats.mul (percent floats (since time previous) b.delta) (floats.of_ℕ b.cores)
      else floats.of_ℕ 0

  unfoldable pub process_of : Basis → ℤ → Stat → Process floats.Float
  unfolding cpu_share find_previous_process_time
  process_of b pid st = record {
    pid = pid;
    comm = st.stat_comm;
    total_time = st.stat_total_time;
    cpu_usage_pct = cpu_share b (find_previous_process_time pid b.history) st.stat_total_time;
    vm_rss_kb = st.stat_vm_rss_kb;
    mem_usage_pct =
        if ltb 0 b.mem_total_kb
        then percent floats st.stat_vm_rss_kb b.mem_total_kb
        else floats.of_ℕ 0;
  }

  -- The process that a name of /proc stands for, if it is one and can be read.
  unfoldable pub process_at : Basis → (ℤ → Option Stat) → Text → Option (Process floats.Float)
  unfolding process_of strtol
  process_at b read name =
      if names_pid name
      then elim (read (pid_of name)) [
        | none ↦ none
        | some st ↦ some (process_of b (pid_of name) st)
      ]
      else none

  -- One more process; its time is kept while there is room.
  abbrev pub keep : ℕ → Process floats.Float → Found floats.Float → Found floats.Float
  keep current_count p rest = record {
    procs = p ∷ rest.procs;
    current_processes =
        if ltb current_count max_procs
        then (p.pid, p.total_time) ∷ rest.current_processes
        else rest.current_processes;
    truncated = rest.truncated;
  }

  abbrev pub nothing_found : Bool → Found floats.Float
  nothing_found cut = record { procs = []; current_processes = []; truncated = cut }

  -- The loop of `readdir`, with `count` and `current_count`.
  unfoldable pub scan_names : Basis → (ℤ → Option Stat) → ℕ → ℕ → List Text → Found floats.Float
  scan_names b read count current_count [] = nothing_found false
  scan_names b read count current_count (name ∷ names) =
      let o = process_at b read name in
      let more : ℕ = elim o [ none ↦ 0 | some p ↦ 1 ] in
      let room = if ltb current_count max_procs then more else 0 in
      let rest = scan_names b read (count + more) (current_count + room) names in
      if not (names_pid name)
      then rest
      else if leb max_procs count
      then nothing_found true
      else elim o [ none ↦ rest | some p ↦ keep current_count p rest ]

  -- After the two readings and `opendir`.
  unfoldable pub collect :
      ProcFs → Metrics floats → ℕ → List Text → Monitor → Option (Snapshot floats) × Monitor
  unfolding scan_names
  collect fs m total_kb names s =
      let b : Basis = record {
        history = s.prev_processes;
        delta = s.cpu.last_system_jiffies_delta;
        cores = s.cpu.sys_core_count;
        mem_total_kb = total_kb;
      } in
      let f = scan_names b fs.read_process 0 0 names in
      (
        some (record { cpu_metrics = m; total_kb = total_kb; found = f }),
        record s { prev_processes = f.current_processes },
      )

  -- `none` for the return of -1.
  unfoldable pub proc_parser_take_snapshot : ProcFs → Monitor → Option (Snapshot floats) × Monitor
  unfolding collect proc_parser_read_cpu
  proc_parser_take_snapshot fs s = elim (proc_parser_read_cpu floats fs.stat s.cpu) [
    | none ↦ (none, s)
    | some r ↦
        let s' = record s { cpu = r.1 } in
        elim fs.mem_total [
          | none ↦ (none, s')
          | some total_kb ↦ elim fs.names [
            | none ↦ (none, s')
            | some names ↦ collect fs r.0 total_kb names s'
          ]
        ]
  ]
