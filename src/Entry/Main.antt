-- ===== src/Entry/Main.antt =====
-- `main` of src/monitor/main.c: what it holds on each of its ways to the end, and its exit code.
-- The calls that may fail are parameters, and so is what each round of a loop takes of the system.
use linux_dynamic_memory_all.Prelude.{
  ℕ, suc, ◌++◌, Bool, true, false, not, Option, none, some, List, [], ◌∷◌,
}
use linux_dynamic_memory_all.Prelude.Tests.{if◌then◌else◌}
use linux_dynamic_memory_all.Text.{Text, codes}
use linux_dynamic_memory_all.Text.Number.{pos, decimal}
use linux_dynamic_memory_all.Web.Lifecycle.{
  Life, InitCalls, StartCalls, gui_server_init, gui_server_start, gui_server_stop,
}
use linux_dynamic_memory_all.Web.Metrics.{Format, View, Row, around, gui_server_update_snapshot}
use linux_dynamic_memory_all.Entry.{Config, defaults, Parsed, parsed, exits, parse_args, token_of}

abbrev pub count_rows : {F : Type 0} → List (Row F) → ℕ
count_rows [] = 0
count_rows (p ∷ ps) = suc (count_rows ps)

-- What `--json` prints for a snapshot.
unfoldable pub json_text : {F : Type 0} → Format F → View F → Text
unfolding decimal
json_text f v = around (codes "{\n  \"cpu\": {\"total_usage_pct\": ") (f.fixed2 v.total_usage_pct) (
    around (codes ", \"core_count\": ") (f.signed v.core_count) (
      around (codes "},\n  \"mem\": {\"mem_total_kb\": ") (decimal v.mem_total_kb) (
        around (codes ", \"mem_available_kb\": ") (decimal v.mem_available_kb) (
          around (codes ", \"mem_usage_pct\": ") (f.fixed2 v.mem_usage_pct) (
            around (codes "},\n  \"process_count\": ") (decimal (count_rows v.procs))
              (codes "\n}\n"))))))

-- Which calls succeed; `json_snapshot` is what the snapshot for `--json` finds.
pub record MainCalls (F : Type 0) : Type 0 where
  pub sigaction : Bool
  pub proc_parser_init : Bool
  pub malloc : Bool
  pub json_snapshot : Option (View F)
  pub init : InitCalls
  pub start : StartCalls
  pub tui_init : Bool

-- What the program holds: whether the snapshot is allocated, whether the terminal is in the hands of
-- the interface, the server, the snapshot that it serves, and what the program has printed.
pub record Running (A : Type 0) : Type 0 where
  pub snapshot : Bool
  pub terminal : Bool
  pub server : Life
  pub served : Option A
  pub printed : Text

module _ {A : Type 0} where
  abbrev pub malloc_snapshot : Running A → Running A
  malloc_snapshot m = record m { snapshot = true }

  abbrev pub free_snapshot : Running A → Running A
  free_snapshot m = record m { snapshot = false }

  abbrev pub call_stop : Running A → Running A
  call_stop m = record m { server = gui_server_stop m.server }

  abbrev pub open_terminal : Running A → Running A
  open_terminal m = record m { terminal = true }

  abbrev pub tui_cleanup : Running A → Running A
  tui_cleanup m = record m { terminal = false }

  -- The rounds of a loop until a signal or a key ends it: a snapshot that was taken is served.
  unfoldable pub rounds : List (Option A) → Running A → Running A
  unfolding gui_server_update_snapshot
  rounds [] m = m
  rounds (none ∷ more) m = rounds more m
  rounds (some t ∷ more) m =
      rounds more (record m { served = gui_server_update_snapshot true (some t) m.served })

  -- With a server that runs; the result is the exit code and what is held.
  unfoldable pub serve_until_stopped : Bool → Bool → List (Option A) → Running A → ℕ × Running A
  unfolding rounds gui_server_stop
  serve_until_stopped headless tui_init taken m =
      if headless
      then (0, free_snapshot (call_stop (rounds taken m)))
      else if not tui_init
      then (1, free_snapshot (call_stop m))
      else (0, free_snapshot (call_stop (tui_cleanup (rounds taken (open_terminal m)))))

  -- The end for `--json`, when the snapshot has been taken.
  abbrev pub print_json : {F : Type 0} → Format F → Option (View F) → Running A → ℕ × Running A
  print_json f none m = (1, free_snapshot m)
  print_json f (some v) m = (0, free_snapshot (record m { printed = m.printed ++ json_text f v }))

  -- With the arguments and the token; `empty` is the snapshot that the server starts with.
  unfoldable pub run_with :
      {F : Type 0}
      → Format F
      → MainCalls F
      → A
      → List (Option A)
      → Config
      → Text
      → Running A
      → ℕ × Running A
  unfolding gui_server_init gui_server_start serve_until_stopped json_text
  run_with f calls empty taken c token m =
      let m1 = malloc_snapshot m in
      let i = gui_server_init calls.init (some c.bind_host) (pos c.port) (some token) m1.server in
      let m2 = record m1 { server = i.1; served = some empty } in
      let r = gui_server_start calls.start i.1 in
      let m3 = record m2 { server = r.1 } in
      if not calls.sigaction
      then (1, m)
      else if not calls.proc_parser_init
      then (1, m)
      else if not calls.malloc
      then (1, m)
      else if c.output_json
      then print_json f calls.json_snapshot m1
      else if not i.0
      then (1, free_snapshot (record m1 { server = i.1 }))
      else if not r.0
      then (1, free_snapshot (call_stop m3))
      else serve_until_stopped c.headless calls.tui_init taken m3

  abbrev pub with_token :
      {F : Type 0}
      → Format F
      → MainCalls F
      → A
      → List (Option A)
      → Config
      → Running A
      → Option Text
      → ℕ × Running A
  with_token f calls empty taken c m none = (1, m)
  with_token f calls empty taken c m (some token) = run_with f calls empty taken c token m

  abbrev pub with_config :
      {F : Type 0}
      → Format F
      → MainCalls F
      → Option (List ℕ)
      → A
      → List (Option A)
      → Running A
      → Parsed
      → ℕ × Running A
  with_config f calls random empty taken m (exits n) = (n, m)
  with_config f calls random empty taken m (parsed c) =
      with_token f calls empty taken c m (token_of random c)

  unfoldable pub main :
      {F : Type 0}
      → Format F
      → MainCalls F
      → List Text
      → Option (List ℕ)
      → A
      → List (Option A)
      → Running A
      → ℕ × Running A
  unfolding parse_args token_of run_with
  main f calls args random empty taken m =
      with_config f calls random empty taken m (parse_args args defaults)
