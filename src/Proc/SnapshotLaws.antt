-- ===== src/Proc/SnapshotLaws.antt =====
-- The snapshot of src/monitor/proc_parser.c, and the times that it keeps for the next.
use mathlib.Core.Option.{some-injective}
use linux_dynamic_memory_all.Prelude.{
  ℕ, zero, suc, ◌+◌, ◌-◌, ◌≡◌, ◌≤◌, ◌⊎◌, inl, inr, refl, ap, sym, true, false, Option, none, some,
  List, [], ◌∷◌, arith,
}
use linux_dynamic_memory_all.Prelude.Tests.{ltb, leb, option_both, option_view, Bool-cases}
use linux_dynamic_memory_all.Prelude.Lists.{length}
use linux_dynamic_memory_all.Text.{Text}
use linux_dynamic_memory_all.Text.Number.{ℤ}
use linux_dynamic_memory_all.Proc.{Floats, Process}
use linux_dynamic_memory_all.Proc.Cpu.{
  CpuState, Metrics, proc_parser_read_cpu, Jiffies, total, since, deltas, metrics_of,
}
use linux_dynamic_memory_all.Proc.Snapshot.{
  Stat, History, Found, Basis, Monitor, ProcFs, Snapshot, max_procs, names_pid, nothing_found,
  process_at, scan_names, collect, proc_parser_take_snapshot,
}

abbrev pub first : {A : Type 0} → ℕ → List A → List A
first zero xs = []
first (suc n) [] = []
first (suc n) (x ∷ xs) = x ∷ first n xs

-- The pid and the time of each process.
abbrev pub times : {F : Type 0} → List (Process F) → History
times [] = []
times (p ∷ ps) = (p.pid, p.total_time) ∷ times ps

module _ (floats : Floats) (b : Basis) (read : ℤ → Option Stat) where
  -- The processes that can be read, all of them.
  abbrev pub readable : List Text → List (Process floats.Float)
  readable [] = []
  readable (name ∷ names) =
      let rest = readable names in
      elim (process_at floats b read name) [ none ↦ rest | some p ↦ p ∷ rest ]

  process_at-not_pid : (name : Text) → names_pid name ≡ false → process_at floats b read name ≡ none
  unfolding process_at
  process_at-not_pid name e = rw e refl

  -- What the loop finds, from the names left.
  record IsScan (count : ℕ) (names : List Text) (f : Found floats.Float) : Type 0 where
    procs_are : f.procs ≡ first (max_procs - count) (readable names)
    times_are : f.current_processes ≡ times f.procs
    within : length f.procs + count ≤ max_procs
    whole : f.truncated ≡ false → f.procs ≡ readable names
    cut : f.truncated ≡ true → length f.procs + count ≡ max_procs

  first_none : (n : ℕ) → first {A = Process floats.Float} n [] ≡ []
  first_none zero = refl
  first_none (suc n) = refl

  skip-IsScan :
      (count : ℕ) (name : Text) (names : List Text) (f : Found floats.Float)
      → process_at floats b read name ≡ none
      → IsScan count names f
      → IsScan count (name ∷ names) f
  skip-IsScan count name names f e i = record {
    procs_are = rw (readable, e) i.procs_are;
    times_are = i.times_are;
    within = i.within;
    whole = λ t. rw (readable, e) (i.whole t);
    cut = i.cut;
  }

  keep-IsScan :
      (count : ℕ) (name : Text) (names : List Text) (p : Process floats.Float)
      (f : Found floats.Float)
      → process_at floats b read name ≡ some p
      → ltb count max_procs ≡ true
      → IsScan (count + 1) names f
      → IsScan count (name ∷ names) (record {
        procs = p ∷ f.procs;
        current_processes = (p.pid, p.total_time) ∷ f.current_processes;
        truncated = f.truncated;
      })
  keep-IsScan count name names p f e lt i =
      let r : max_procs - count ≡ suc (max_procs - (count + 1)) = ground arith in
      record {
        procs_are =
            rw (r, readable, e) (ap (λ (l : List (Process floats.Float)). p ∷ l) i.procs_are);
        times_are = (ap (λ (l : History). (p.pid, p.total_time) ∷ l) i.times_are);
        within = omega (arith, i.within);
        whole = λ t. rw (readable, e) (ap (λ (l : List (Process floats.Float)). p ∷ l) (i.whole t));
        cut = λ t. omega (arith, i.cut t);
      }

  full-IsScan :
      (count : ℕ) (names : List Text)
      → count ≡ max_procs
      → IsScan count names (nothing_found floats true)
  full-IsScan count names e = record {
    procs_are = rw e refl;
    times_are = refl;
    within = omega arith;
    whole = λ t. absurd (ground arith);
    cut = λ t. omega arith;
  }

  scan_names-IsScan :
      (count : ℕ) (names : List Text)
      → count ≤ max_procs
      → IsScan count names (scan_names floats b read count count names)
  unfolding scan_names
  scan_names-IsScan count [] le = record {
    procs_are = sym (first_none (max_procs - count));
    times_are = refl;
    within = omega arith;
    whole = λ t. refl;
    cut = λ t. absurd (ground arith);
  }
  scan_names-IsScan count (name ∷ names) le =
      let same = scan_names-IsScan count names le in
      let z : count + 0 ≡ count = omega arith in
      elim (Bool-cases (ltb count max_procs)) [
        | inl lt ↦
            let full : leb max_procs count ≡ false = ground arith in
            let next = scan_names-IsScan (count + 1) names (ground arith) in
            elim (Bool-cases (names_pid name)) [
              | inl pid ↦ elim (option_view (process_at floats b read name)) [
                | inl e ↦ rw (pid, full, e, e, lt, z) (skip-IsScan count name names _ e same)
                | inr (p, e) ↦ rw (pid, full, e, e, lt) (keep-IsScan count name names p _ e lt next)
              ]
              | inr other ↦
                  let e = process_at-not_pid name other in
                  rw (lt, e, other, z) (skip-IsScan count name names _ e same)
            ]
        | inr ge ↦ elim (Bool-cases (names_pid name)) [
          | inl pid ↦
              let full : leb max_procs count ≡ true = ground arith in
              rw (ge, pid, full) (full-IsScan count (name ∷ names) (ground arith))
          | inr other ↦
              let e = process_at-not_pid name other in
              rw (ge, e, other, z) (skip-IsScan count name names _ e same)
        ]
      ]

-- A snapshot that was taken from the state `s`, and the state after it: it has the processes that
-- can be read, as many of the first as there is room for, and their times are kept.
pub record IsSnapshot (floats : Floats) (fs : ProcFs) (s : Monitor) (sn : Snapshot floats)
    (s' : Monitor) : Type 0 where
  pub basis : Basis
  pub names : List Text
  pub listed : fs.names ≡ some names
  pub history : basis.history ≡ s.prev_processes
  pub jiffies : Jiffies
  pub read_stat : fs.stat ≡ some jiffies
  pub remembered : s'.cpu.prev_cpu_jiffies ≡ jiffies
  pub ticks : basis.delta ≡ since (total jiffies) (total s.cpu.prev_cpu_jiffies)
  pub delta : basis.delta ≡ s'.cpu.last_system_jiffies_delta
  pub cores : basis.cores ≡ s'.cpu.sys_core_count
  pub same_cores : s'.cpu.sys_core_count ≡ s.cpu.sys_core_count
  pub mem_total : basis.mem_total_kb ≡ sn.total_kb
  pub procs_are : sn.found.procs ≡ first max_procs (readable floats basis fs.read_process names)
  pub bounded : length sn.found.procs ≤ max_procs
  pub extent :
      ((sn.found.truncated ≡ false)
        × (sn.found.procs ≡ readable floats basis fs.read_process names))
      ⊎ ((sn.found.truncated ≡ true) × (length sn.found.procs ≡ max_procs))
  pub kept : s'.prev_processes ≡ times sn.found.procs

-- A snapshot, or a failure, which leaves the times of the last snapshot.
pub data Taken (floats : Floats) (fs : ProcFs) (s : Monitor)
    : Option (Snapshot floats) × Monitor → Type 0 where
  failed : (c : CpuState) → Taken floats fs s (none, record s { cpu = c })
  taken :
      (sn : Snapshot floats) (s' : Monitor)
      → IsSnapshot floats fs s sn s'
      → Taken floats fs s (some sn, s')

-- What a reading of /proc/stat leaves.
record WasRead (stat : Option Jiffies) (c c' : CpuState) : Type 0 where
  curr : Jiffies
  found : stat ≡ some curr
  stored : c'.prev_cpu_jiffies ≡ curr
  passed : c'.last_system_jiffies_delta ≡ since (total curr) (total c.prev_cpu_jiffies)
  cores : c'.sys_core_count ≡ c.sys_core_count

read_cpu-WasRead :
    (floats : Floats) (stat : Option Jiffies) (c : CpuState) (r : Metrics floats × CpuState)
    → proc_parser_read_cpu floats stat c ≡ some r
    → WasRead stat c r.1
unfolding proc_parser_read_cpu deltas
read_cpu-WasRead floats none c r e = absurd (ground arith)
read_cpu-WasRead floats (some j) c r e =
    let d = deltas j c.prev_cpu_jiffies in
    let q =
      ap (λ (x : Metrics floats × CpuState). x.1)
        (some-injective
          (
            metrics_of floats d c.sys_core_count,
            record c { prev_cpu_jiffies = j; last_system_jiffies_delta = d.delta_total },
          )
          r e) in
    record {
      curr = j;
      found = refl;
      stored = sym (ap (λ (x : CpuState). x.prev_cpu_jiffies) q);
      passed = sym (ap (λ (x : CpuState). x.last_system_jiffies_delta) q);
      cores = sym (ap (λ (x : CpuState). x.sys_core_count) q);
    }

collect-Taken :
    (floats : Floats) (fs : ProcFs) (m : Metrics floats) (total_kb : ℕ) (names : List Text)
    (c : CpuState) (s : Monitor)
    → fs.names ≡ some names
    → WasRead fs.stat s.cpu c
    → Taken floats fs s (collect floats fs m total_kb names (record s { cpu = c }))
unfolding collect
collect-Taken floats fs m total_kb names c s e w =
    let b : Basis = record {
      history = s.prev_processes;
      delta = c.last_system_jiffies_delta;
      cores = c.sys_core_count;
      mem_total_kb = total_kb;
    } in
    let f = scan_names floats b fs.read_process 0 0 names in
    let i = scan_names-IsScan floats b fs.read_process 0 names (ground arith) in
    taken _ _ (record {
      basis = b;
      names = names;
      listed = e;
      history = refl;
      jiffies = w.curr;
      read_stat = w.found;
      remembered = w.stored;
      ticks = w.passed;
      delta = refl;
      cores = refl;
      same_cores = w.cores;
      mem_total = refl;
      procs_are = i.procs_are;
      bounded = omega (arith, i.within);
      extent = elim (Bool-cases f.truncated) [
        | inl t ↦ inr (t, omega (arith, i.cut t))
        | inr t ↦ inl (t, i.whole t)
      ];
      kept = i.times_are;
    })

-- proc_parser_take_snapshot fails and keeps the times of the last snapshot, or its processes are
-- the first 2048 of those in /proc that can be read, all of them if it is not marked as truncated
-- and 2048 if it is; and the times kept for the next snapshot are the times of its processes.
pub proc_parser_take_snapshot-Taken :
    (floats : Floats) (fs : ProcFs) (s : Monitor)
    → Taken floats fs s (proc_parser_take_snapshot floats fs s)
unfolding proc_parser_take_snapshot
proc_parser_take_snapshot-Taken floats fs s =
    let T = Taken floats fs s in
    option_both T (proc_parser_read_cpu floats fs.stat s.cpu) _ _ (λ n. failed s.cpu)
      (λ r at.
        option_both T fs.mem_total _ _ (λ n. failed r.1)
          (λ total_kb got.
            option_both T fs.names _ _ (λ n. failed r.1)
              (λ names listed.
                collect-Taken floats fs r.0 total_kb names r.1 s listed
                  (read_cpu-WasRead floats fs.stat s.cpu r at))))
