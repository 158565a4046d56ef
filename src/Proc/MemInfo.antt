-- ===== src/Proc/MemInfo.antt =====
-- `proc_parser_read_mem`, `proc_parser_init` and `proc_parser_get_maps` of
-- src/monitor/proc_parser.c.
use linux_dynamic_memory_all.Prelude.{
  ℕ, ◌-◌, ◌^◌, Bool, true, false, ◌&&◌, Option, none, some, List, [], ◌∷◌,
}
use linux_dynamic_memory_all.Prelude.Tests.{ltb, leb, if◌then◌else◌}
use linux_dynamic_memory_all.Text.{Text, codes}
use linux_dynamic_memory_all.Text.Number.{ℤ}
use linux_dynamic_memory_all.Proc.{Floats}
use linux_dynamic_memory_all.Proc.Cpu.{Jiffies, percent, proc_parser_read_cpu}
use linux_dynamic_memory_all.Proc.Snapshot.{Monitor, ProcFs}
use linux_dynamic_memory_all.Proc.ReadProcess.{Scan, lines_from, proc_parser_read_process}

-- The numbers of `mem_metrics_t`.
pub record MemNumbers : Type 0 where
  pub mem_total_kb : ℕ
  pub mem_free_kb : ℕ
  pub mem_available_kb : ℕ
  pub buffers_kb : ℕ
  pub cached_kb : ℕ
  pub swap_total_kb : ℕ
  pub swap_free_kb : ℕ

abbrev pub no_memory_numbers : MemNumbers
no_memory_numbers = record {
  mem_total_kb = 0;
  mem_free_kb = 0;
  mem_available_kb = 0;
  buffers_kb = 0;
  cached_kb = 0;
  swap_total_kb = 0;
  swap_free_kb = 0;
}

-- The first of the keys that the line matches sets its field.
abbrev pub set_mem : Scan → Text → MemNumbers → MemNumbers
set_mem scan line m = elim (scan.keyed (codes "MemTotal: %lu kB") line) [
  | some v ↦ record m { mem_total_kb = v }
  | none ↦ elim (scan.keyed (codes "MemFree: %lu kB") line) [
    | some v ↦ record m { mem_free_kb = v }
    | none ↦ elim (scan.keyed (codes "MemAvailable: %lu kB") line) [
      | some v ↦ record m { mem_available_kb = v }
      | none ↦ elim (scan.keyed (codes "Buffers: %lu kB") line) [
        | some v ↦ record m { buffers_kb = v }
        | none ↦ elim (scan.keyed (codes "Cached: %lu kB") line) [
          | some v ↦ record m { cached_kb = v }
          | none ↦ elim (scan.keyed (codes "SwapTotal: %lu kB") line) [
            | some v ↦ record m { swap_total_kb = v }
            | none ↦ elim (scan.keyed (codes "SwapFree: %lu kB") line) [
              | some v ↦ record m { swap_free_kb = v }
              | none ↦ m
            ]
          ]
        ]
      ]
    ]
  ]
]

unfoldable pub read_mem_lines : Scan → List Text → MemNumbers → MemNumbers
read_mem_lines scan [] m = m
read_mem_lines scan (l ∷ ls) m = read_mem_lines scan ls (set_mem scan l m)

-- `total > rest ? total - rest : 0`.
abbrev pub used_of : ℕ → ℕ → ℕ
used_of total rest = if ltb rest total then total - rest else 0

module _ (floats : Floats) where
  -- `mem_metrics_t`.
  pub record MemMetrics : Type 0 where
    pub numbers : MemNumbers
    pub mem_usage_pct : floats.Float
    pub swap_usage_pct : floats.Float

  abbrev pub usage : ℕ → ℕ → floats.Float
  usage total rest =
      if ltb 0 total then percent floats (used_of total rest) total else floats.of_ℕ 0

  -- `none` if /proc/meminfo cannot be opened or is empty.
  unfoldable pub proc_parser_read_mem : Scan → Option Text → Option MemMetrics
  unfolding lines_from read_mem_lines
  proc_parser_read_mem scan none = none
  proc_parser_read_mem scan (some t) =
      let m = read_mem_lines scan (lines_from [] t) no_memory_numbers in
      some (record {
        numbers = m;
        mem_usage_pct = usage m.mem_total_kb m.mem_available_kb;
        swap_usage_pct = usage m.swap_total_kb m.swap_free_kb;
      })

  -- INT32_MAX.
  abbrev pub int32_max : ℕ
  int32_max = 2 ^ 31 - 1

  -- `sysconf(_SC_NPROCESSORS_ONLN)`, `none` for -1, sets the number of cores; and there is no last
  -- snapshot. `false` for the return of -1.
  unfoldable pub proc_parser_init : Option ℕ → Option Jiffies → Monitor → Bool × Monitor
  unfolding proc_parser_read_cpu
  proc_parser_init cores stat s =
      let n : ℕ = elim cores [ none ↦ 0 | some n ↦ n ] in
      let cpu =
        if ltb 0 n && leb n int32_max then record (s.cpu) { sys_core_count = n } else s.cpu in
      elim (proc_parser_read_cpu floats stat cpu) [
        | none ↦ (false, record s { cpu = cpu })
        | some r ↦ (true, record s { cpu = r.1; prev_processes = [] })
      ]

  -- The files of /proc, as the functions above read them.
  unfoldable pub read_files :
      Scan
      → Option Jiffies
      → Option Text
      → Option (List Text)
      → (ℤ → Option Text)
      → (ℤ → Option Text)
      → ProcFs
  unfolding proc_parser_read_mem proc_parser_read_process
  read_files scan stat meminfo names stat_of status_of = record {
    stat = stat;
    mem_total = elim (proc_parser_read_mem scan meminfo) [
      | none ↦ none
      | some m ↦ some m.numbers.mem_total_kb
    ];
    names = names;
    read_process = λ pid. elim (proc_parser_read_process scan pid (stat_of pid) (status_of pid)) [
      | none ↦ none
      | some p ↦ some (record {
        stat_comm = p.comm;
        stat_total_time = p.total_time;
        stat_vm_rss_kb = p.vm_rss_kb;
      })
    ];
  }

-- `read n` is what a call of read gives for at most `n` bytes of the maps file, `none` for -1;
-- `none` for a file that cannot be opened. The result is the text before the terminating zero.
unfoldable pub proc_parser_get_maps : Option (ℕ → Option Text) → Bool → ℕ → Option Text
proc_parser_get_maps maps has_buffer buf_size =
    if has_buffer && ltb 0 buf_size
    then elim maps [ none ↦ none | some read ↦ read (buf_size - 1) ]
    else none
