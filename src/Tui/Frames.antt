-- ===== src/Tui/Frames.antt =====
-- The frames of the terminal interface: the loop of src/monitor/main.c (194 to 204).
use linux_dynamic_memory_all.Prelude.{ℕ, Bool, Option, none, some, List, [], ◌∷◌}
use linux_dynamic_memory_all.Prelude.Tests.{if◌then◌else◌}
use linux_dynamic_memory_all.Prelude.Lists.{length}
use linux_dynamic_memory_all.Signal.{Kill, Sent}
use linux_dynamic_memory_all.Proc.{Process}
use linux_dynamic_memory_all.Tui.{Tui, Clock, SortMode, initial, tui_render, tui_handle_input}

-- What the outside gives in one frame: the snapshot, if one was taken, the lines of the screen, the
-- time and the key, if one was pressed.
pub record Frame (F : Type 0) : Type 0 where
  pub taken : Option (List (Process F))
  pub rows : ℕ
  pub now : Clock
  pub key : Option ℕ

module _ {F : Type 0} (qsort : SortMode → List (Process F) → List (Process F))
    (permitted : Kill → Bool) where
  -- One frame; `qsort` sorts the snapshot in place.
  unfoldable pub frame : Frame F → Tui × Sent → Tui × Sent
  unfolding tui_handle_input
  frame f (t, sent) = elim f.taken [
    | none ↦ (t, sent)
    | some procs ↦
        let sorted = qsort t.sort_mode procs in
        let r =
          tui_handle_input permitted f.now sorted f.key (tui_render f.rows (length procs) t) sent in
        (r.1, r.2)
  ]

  -- The loop, the latest frame first: it ends when the interface is not running.
  unfoldable pub frames : List (Frame F) → Tui × Sent
  unfolding frame
  frames [] = (initial, [])
  frames (f ∷ fs) = let before = frames fs in if before.0.is_running then frame f before else before
