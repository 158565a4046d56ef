-- ===== src/Proc/ReadProcess.antt =====
-- `proc_parser_read_process` of src/monitor/proc_parser.c. What sscanf reads of the numbers is a
-- parameter. The files of /proc have no zero byte.
use linux_dynamic_memory_all.Prelude.{
  ℕ, suc, ◌+◌, ◌-◌, ◌%◌, Option, none, some, List, [], ◌∷◌, ◌++◌,
}
use linux_dynamic_memory_all.Prelude.Tests.{leb, ◌==◌, if◌then◌else◌}
use linux_dynamic_memory_all.Prelude.Lists.{length}
use linux_dynamic_memory_all.Text.{Text, codes, take, drop}
use linux_dynamic_memory_all.Text.Number.{ℤ}
use linux_dynamic_memory_all.Proc.Cpu.{ull_mod}

-- MAX_COMM_LEN.
abbrev pub max_comm_len : ℕ
max_comm_len = 256

-- `strchr(t, c) - t`.
abbrev pub find_char : ℕ → Text → Option ℕ
find_char c [] = none
find_char c (d ∷ t) =
    if c == d then some 0 else elim (find_char c t) [ none ↦ none | some k ↦ some (suc k) ]

-- `strrchr(t, c) - t`.
abbrev pub find_last : ℕ → Text → Option ℕ
find_last c [] = none
find_last c (d ∷ t) = elim (find_last c t) [
  | none ↦ if c == d then some 0 else none
  | some k ↦ some (suc k)
]

-- What sscanf reads behind the name.
pub record StatNumbers : Type 0 where
  pub state : ℕ
  pub ppid : ℤ
  pub utime : ℕ
  pub stime : ℕ
  pub priority : ℤ
  pub nice : ℤ
  pub num_threads : ℤ
  pub starttime : ℕ

-- sscanf of the numbers, `none` if fewer than eight match; and sscanf of a line of a status file
-- with a key, `none` if it does not match.
pub record Scan : Type 0 where
  pub stat_numbers : Text → Option StatNumbers
  pub keyed : Text → Text → Option ℕ

-- `process_info_t`, less the fields that proc_parser_take_snapshot computes.
pub record ProcessInfo : Type 0 where
  pub pid : ℤ
  pub comm : Text
  pub numbers : StatNumbers
  pub total_time : ℕ
  pub vm_size_kb : ℕ
  pub vm_rss_kb : ℕ
  pub voluntary_ctxt_switches : ℕ
  pub nonvoluntary_ctxt_switches : ℕ

-- The name between the first `(`, at `from`, and the last `)`, at `to`, cut to what `comm` holds,
-- and what is read behind it.
abbrev pub cut_comm : Text → ℕ → ℕ → Option (Text × Text)
cut_comm buf from to =
    let comm_len = to - (from + 1) in
    let len = if leb max_comm_len comm_len then max_comm_len - 1 else comm_len in
    if leb to from
    then none
    else if leb (length buf) (to + 2)
    then none
    else some (take len (drop (from + 1) buf), drop (to + 2) buf)

abbrev pub cut_at : Text → Option ℕ → Option ℕ → Option (Text × Text)
cut_at buf none to = none
cut_at buf (some from) none = none
cut_at buf (some from) (some to) = cut_comm buf from to

unfoldable pub split_comm : Text → Option (Text × Text)
split_comm buf = cut_at buf (find_char 40 buf) (find_last 41 buf)

-- The lines by strtok_r; `l` is the line read so far.
abbrev pub ended : Text → List Text → List Text
ended [] ls = ls
ended (c ∷ l) ls = (c ∷ l) ∷ ls

unfoldable pub lines_from : Text → Text → List Text
lines_from l [] = ended l []
lines_from l (c ∷ t) =
    let next = ended l (lines_from [] t) in
    let more = lines_from (l ++ (c ∷ [])) t in if c == 10 then next else more

-- The first of the keys that the line matches sets its field.
abbrev pub set_status : Scan → Text → ProcessInfo → ProcessInfo
set_status scan line p = elim (scan.keyed (codes "VmSize: %lu kB") line) [
  | some v ↦ record p { vm_size_kb = v }
  | none ↦ elim (scan.keyed (codes "VmRSS: %lu kB") line) [
    | some v ↦ record p { vm_rss_kb = v }
    | none ↦ elim (scan.keyed (codes "voluntary_ctxt_switches: %lu") line) [
      | some v ↦ record p { voluntary_ctxt_switches = v }
      | none ↦ elim (scan.keyed (codes "nonvoluntary_ctxt_switches: %lu") line) [
        | some v ↦ record p { nonvoluntary_ctxt_switches = v }
        | none ↦ p
      ]
    ]
  ]
]

unfoldable pub read_status : Scan → List Text → ProcessInfo → ProcessInfo
read_status scan [] p = p
read_status scan (l ∷ ls) p = read_status scan ls (set_status scan l p)

abbrev pub add_status : Scan → Option Text → ProcessInfo → ProcessInfo
add_status scan none p = p
add_status scan (some t) p = read_status scan (lines_from [] t) p

-- The fields read from the stat file.
abbrev pub stat_info : ℤ → Text → StatNumbers → ProcessInfo
stat_info pid comm n = record {
  pid = pid;
  comm = comm;
  numbers = n;
  total_time = (n.utime + n.stime) % ull_mod;
  vm_size_kb = 0;
  vm_rss_kb = 0;
  voluntary_ctxt_switches = 0;
  nonvoluntary_ctxt_switches = 0;
}

abbrev pub with_numbers : Scan → ℤ → Text → Option Text → Option StatNumbers → Option ProcessInfo
with_numbers scan pid comm status none = none
with_numbers scan pid comm status (some n) = some (add_status scan status (stat_info pid comm n))

abbrev pub with_comm : Scan → ℤ → Option Text → Option (Text × Text) → Option ProcessInfo
with_comm scan pid status none = none
with_comm scan pid status (some (comm, rest)) =
    with_numbers scan pid comm status (scan.stat_numbers rest)

-- `stat` and `status` are what is read of the two files: `none` if one cannot be opened or is empty.
unfoldable pub proc_parser_read_process :
    Scan → ℤ → (stat status : Option Text) → Option ProcessInfo
unfolding split_comm lines_from read_status
proc_parser_read_process scan pid none status = none
proc_parser_read_process scan pid (some buf) status = with_comm scan pid status (split_comm buf)
