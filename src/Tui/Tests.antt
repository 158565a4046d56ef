-- ===== src/Tui/Tests.antt =====
-- The theorems about src/ui/tui.c at two processes.
use linux_dynamic_memory_all.Prelude.{ℕ, Bool, true, some, List, [], ◌∷◌, arith}
use linux_dynamic_memory_all.Prelude.Tests.{ltb}
use linux_dynamic_memory_all.Text.{codes}
use linux_dynamic_memory_all.Text.Number.{pos}
use linux_dynamic_memory_all.Signal.{Kill, sigkill, signal_send_to_process}
use linux_dynamic_memory_all.Proc.{Process}
use linux_dynamic_memory_all.Tui.{Tui, Clock, SortMode, sort_by_pid, initial, tui_render}
use linux_dynamic_memory_all.Tui.Frames.{Frame, frames}
use linux_dynamic_memory_all.Tui.Confirm.{Authorised, frames-Authorised}
use linux_dynamic_memory_all.Tui.Order.{
  is_int, ShownFirst, Decides, compare_procs, compare_procs-Decides,
}

-- A process whose percentage is a whole number.
abbrev process : ℕ → ℕ → Process ℕ
process n cpu = record {
  pid = pos n;
  comm = codes "sh";
  total_time = 0;
  cpu_usage_pct = cpu;
  vm_rss_kb = 0;
  mem_usage_pct = 0;
}

abbrev two : List (Process ℕ)
two = process 20 5 ∷ process 30 1 ∷ []

abbrev at_time : ℕ → Clock
at_time n = record { checked = n; expired = n; acted = n }

abbrev permit_all : Kill → Bool
permit_all k = true

abbrev unsorted : SortMode → List (Process ℕ) → List (Process ℕ)
unsorted mode ps = ps

abbrev press : ℕ → ℕ → Frame ℕ
press n ch = record { taken = some two; rows = 24; now = at_time n; key = some ch }

abbrev scrolled : Tui
scrolled = record initial { selected_index = 7; scroll_offset = 9 }

frames-Authorised_example :
    Authorised unsorted permit_all
      (press 5 121)
      (press 1 75 ∷ [])
      []
      (record { pid = pos 20; sig = sigkill } ∷ [])
unfolding frames tui_render signal_send_to_process
frames-Authorised_example = frames-Authorised unsorted permit_all (press 5 121) (press 1 75 ∷ [])

compare_procs-Decides_example :
    Decides
      (ShownFirst ltb sort_by_pid (process 20 5) (process 10 0))
      (ShownFirst ltb sort_by_pid (process 10 0) (process 20 5))
      (compare_procs ltb sort_by_pid (process 20 5) (process 10 0))
compare_procs-Decides_example =
    compare_procs-Decides ltb sort_by_pid (process 20 5) (process 10 0) (is_int (ground arith))
      (is_int (ground arith))
