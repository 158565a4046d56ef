-- ===== src/Tui.antt =====
-- src/ui/tui.c and include/tui.h, the terminal interface. What ncurses draws is not here; `getch`,
-- `time` and `kill` are parameters.
pub mod Frames
pub mod Laws
pub mod Confirm
pub mod Order
mod Tests
use linux_dynamic_memory_all.Prelude.{
  ℕ, zero, suc, ◌+◌, ◌-◌, Bool, true, false, not, ◌&&◌, ◌||◌, Option, none, some, List, [], ◌∷◌,
}
use linux_dynamic_memory_all.Prelude.Tests.{ltb, leb, ◌==◌, if◌then◌else◌}
use linux_dynamic_memory_all.Prelude.Lists.{length}
use linux_dynamic_memory_all.Text.Number.{ℤ, pos, negsuc, sameℤ}
use linux_dynamic_memory_all.Signal.{Kill, Sent, signal_send_to_process, sigkill, sigstop, sigcont}
use linux_dynamic_memory_all.Proc.{Process}

-- KEY_DOWN and KEY_UP of curses.h.
abbrev pub key_down : ℕ
key_down = 258

abbrev pub key_up : ℕ
key_up = 259

-- `sort_mode_t`.
pub data SortMode : Type 0 where
  sort_by_cpu sort_by_mem sort_by_pid sort_by_name : SortMode

-- The texts of `status_message`.
pub data Status : Type 0 where
  blank : Status
  confirmation_expired cancelled sorting_by_cpu sorting_by_mem : Status
  confirm gone : ℤ → Status
  -- The signal and whether it was sent.
  signalled : ℕ → Bool → ℤ → Status

-- `tui_state_t`. The indexes start at 0 and are only lowered after a test, so they are not negative.
pub record Tui : Type 0 where
  pub is_running : Bool
  pub selected_index : ℕ
  pub scroll_offset : ℕ
  pub sort_mode : SortMode
  pub status_message : Status
  pub status_message_expiry : ℕ
  pub confirm_pending : Bool
  pub pending_kill_pid : ℤ

-- The answers of `time(NULL)`: at the test of the expiry, at the message that the confirmation has
-- expired, and at the message that the key gives.
pub record Clock : Type 0 where
  pub checked : ℕ
  pub expired : ℕ
  pub acted : ℕ

-- The state of src/monitor/main.c at the start.
abbrev pub initial : Tui
initial = record {
  is_running = true;
  selected_index = 0;
  scroll_offset = 0;
  sort_mode = sort_by_cpu;
  status_message = blank;
  status_message_expiry = 0;
  confirm_pending = false;
  pending_kill_pid = negsuc 0;
}

-- The selected row within `count` rows.
abbrev clamp : ℕ → ℕ → ℕ
clamp count selected = if count == 0 then 0 else if leb count selected then count - 1 else selected

-- The first row shown so that the selected one is among `max_rows`.
abbrev scroll : ℕ → ℕ → ℕ → ℕ
scroll max_rows selected offset =
    if ltb selected offset
    then selected
    else if leb (offset + max_rows) selected
    then selected - max_rows + 1
    else offset

-- `max_rows` on a screen of `rows` lines.
abbrev pub max_rows_of : ℕ → ℕ
max_rows_of rows = if ltb (rows - 8) 1 then 1 else rows - 8

-- What `tui_render` does to the state, for `count` processes on a screen of `rows` lines.
unfoldable pub tui_render : ℕ → ℕ → Tui → Tui
tui_render rows count t =
    let selected = clamp count t.selected_index in
    let offset = if count == 0 then 0 else t.scroll_offset in
    record t {
      selected_index = selected;
      scroll_offset = scroll (max_rows_of rows) selected offset;
    }

-- The loop that looks for the process of the confirmed kill.
abbrev pub has_pid : {F : Type 0} → ℤ → List (Process F) → Bool
has_pid pid [] = false
has_pid pid (p ∷ ps) = sameℤ p.pid pid || has_pid pid ps

-- `snapshot->procs[i].pid`, for `i` below the count.
abbrev pub pid_at : {F : Type 0} → List (Process F) → ℕ → Option ℤ
pid_at [] i = none
pid_at (p ∷ ps) zero = some p.pid
pid_at (p ∷ ps) (suc i) = pid_at ps i

-- A message and the time until which it is shown.
abbrev pub tell : Status → ℕ → Tui → Tui
tell m until t = record t { status_message = m; status_message_expiry = until }

abbrev pub no_confirm : Tui → Tui
no_confirm t = record t { confirm_pending = false; pending_kill_pid = negsuc 0 }

-- The outcome of a key: what `tui_handle_input` returns, the state and the calls of `kill`.
abbrev pub Outcome : Type 0
Outcome = Bool × Tui × Sent

module _ {F : Type 0} (permitted : Kill → Bool) (now : Clock) (procs : List (Process F)) where
  -- The answer to the confirmation that is asked for, in time.
  unfoldable pub answer : ℕ → Tui → Sent → Outcome
  answer ch t sent =
      let target = t.pending_kill_pid in
      let r = signal_send_to_process permitted target sigkill sent in
      if ch == 121 || ch == 89
      then if has_pid target procs
        then (true, no_confirm (tell (signalled sigkill r.0 target) (now.acted + 3) t), r.1)
        else (true, no_confirm (tell (gone target) (now.acted + 3) t), sent)
      else (true, no_confirm (tell cancelled (now.acted + 3) t), sent)

  -- A signal to the selected process.
  unfoldable pub signal_selected : ℕ → Tui → Sent → Outcome
  signal_selected sig t sent = elim (pid_at procs t.selected_index) [
    | none ↦ (true, t, sent)
    | some pid ↦
        let r = signal_send_to_process permitted pid sig sent in
        (true, tell (signalled sig r.0 pid) (now.acted + 3) t, r.1)
  ]

  unfoldable pub ask_confirm : Tui → Sent → Outcome
  ask_confirm t sent = elim (pid_at procs t.selected_index) [
    | none ↦ (true, t, sent)
    | some pid ↦ (
      true,
      tell (confirm pid) (now.acted + 10)
          (record t { pending_kill_pid = pid; confirm_pending = true }),
      sent,
    )
  ]

  -- The `switch` on the key.
  unfoldable pub on_key : ℕ → Tui → Sent → Outcome
  unfolding signal_selected ask_confirm
  on_key ch t sent =
      if ch == 113 || ch == 81
      then (false, record t { is_running = false }, sent)
      else if ch == key_down || ch == 106
      then (
        true,
        if ltb (suc t.selected_index) (length procs)
            then record t { selected_index = suc t.selected_index }
            else t,
        sent,
      )
      else if ch == key_up || ch == 107
      then (
        true,
        if ltb 0 t.selected_index then record t { selected_index = t.selected_index - 1 } else t,
        sent,
      )
      else if ch == 112 || ch == 80
      then (true, tell sorting_by_cpu (now.acted + 3) (record t { sort_mode = sort_by_cpu }), sent)
      else if ch == 109 || ch == 77
      then (true, tell sorting_by_mem (now.acted + 3) (record t { sort_mode = sort_by_mem }), sent)
      else if ch == 115 || ch == 83
      then signal_selected sigstop t sent
      else if ch == 99 || ch == 67
      then signal_selected sigcont t sent
      else if ch == 75
      then ask_confirm t sent
      else (true, t, sent)

  -- `none` for ERR, no key.
  unfoldable pub tui_handle_input : Option ℕ → Tui → Sent → Outcome
  unfolding answer on_key
  tui_handle_input none t sent = (true, t, sent)
  tui_handle_input (some ch) t sent =
      if t.confirm_pending
      then if leb t.status_message_expiry now.checked
        then on_key ch (no_confirm (tell confirmation_expired (now.expired + 3) t)) sent
        else answer ch t sent
      else on_key ch t sent
