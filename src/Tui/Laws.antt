-- ===== src/Tui/Laws.antt =====
-- What the terminal interface of src/ui/tui.c shows and sends.
use linux_dynamic_memory_all.Prelude.{
  ℕ, suc, ◌+◌, ◌-◌, ◌≡◌, ◌<◌, ◌⊎◌, inl, inr, refl, Bool, true, false, ◌||◌, Option, none, some,
  List, arith,
}
use linux_dynamic_memory_all.Prelude.Tests.{ltb, leb, ◌==◌, ==→eq, leb→lt, if_both, option_both}
use linux_dynamic_memory_all.Prelude.Lists.{length}
use linux_dynamic_memory_all.Text.Number.{ℤ}
use linux_dynamic_memory_all.Signal.{Kill, Sent, signal_send_to_process, sigkill, sigstop, sigcont}
use linux_dynamic_memory_all.Proc.{Process}
use linux_dynamic_memory_all.Tui.{
  Tui, Clock, Outcome, SortMode, Status, sorting_by_cpu, sorting_by_mem, sort_by_cpu, sort_by_mem,
  signalled, confirm, gone, cancelled, tui_handle_input, answer, on_key, signal_selected,
  ask_confirm, pid_at, has_pid, no_confirm, tell, confirmation_expired, key_up, key_down,
}

one_of : (a b c : ℕ) → (c == a || c == b) ≡ true → (c ≡ a) ⊎ (c ≡ b)
one_of a b c e = ground arith

module _ {F : Type 0} (permitted : Kill → Bool) (now : Clock) (procs : List (Process F)) where
  -- A property of all that a key can do.
  pub on_key_all {κ} :
      (P : Outcome → Type κ) (ch : ℕ) (t : Tui) (sent : Sent)
      → P (false, record t { is_running = false }, sent)
      → (suc t.selected_index < length procs
          → P (true, record t { selected_index = suc t.selected_index }, sent))
      → P (true, record t { selected_index = t.selected_index - 1 }, sent)
      → ((m : Status) (mode : SortMode)
          → P (true, tell m (now.acted + 3) (record t { sort_mode = mode }), sent))
      → ((pid : ℤ) (sig : ℕ)
          → pid_at procs t.selected_index ≡ some pid
          → ((sig ≡ sigstop) × ((ch ≡ 115) ⊎ (ch ≡ 83)))
            ⊎ ((sig ≡ sigcont) × ((ch ≡ 99) ⊎ (ch ≡ 67)))
          → let r = signal_send_to_process permitted pid sig sent in
            P (true, tell (signalled sig r.0 pid) (now.acted + 3) t, r.1))
      → ((pid : ℤ)
          → pid_at procs t.selected_index ≡ some pid
          → ch ≡ 75
          → P (
            true,
            tell
                (confirm pid)
                (now.acted + 10)
                (record t { pending_kill_pid = pid; confirm_pending = true }),
            sent,
          ))
      → P (true, t, sent)
      → P (on_key permitted now procs ch t sent)
  unfolding on_key signal_selected ask_confirm
  on_key_all P ch t sent quit down up sort signal ask same =
      if_both P (ch == 113 || ch == 81) (λ e. quit)
        (λ e.
          if_both P (ch == key_down || ch == 106)
            (λ e.
              if_both (λ t'. P (true, t', sent)) (ltb (suc t.selected_index) (length procs))
                (λ e. down (ground arith)) (λ e. same))
            (λ e.
              if_both P (ch == key_up || ch == 107)
                (λ e.
                  if_both (λ t'. P (true, t', sent)) (ltb 0 t.selected_index) (λ e. up) (λ e. same))
                (λ e.
                  if_both P (ch == 112 || ch == 80) (λ e. sort sorting_by_cpu sort_by_cpu)
                    (λ e.
                      if_both P (ch == 109 || ch == 77) (λ e. sort sorting_by_mem sort_by_mem)
                        (λ e.
                          if_both P (ch == 115 || ch == 83)
                            (λ e.
                              option_both P (pid_at procs t.selected_index) _ _ (λ n. same)
                                (λ pid at. signal pid sigstop at (inl (refl, one_of 115 83 ch e))))
                            (λ e.
                              if_both P (ch == 99 || ch == 67)
                                (λ e.
                                  option_both P (pid_at procs t.selected_index) _ _ (λ n. same)
                                    (λ pid at.
                                      signal pid sigcont at (inr (refl, one_of 99 67 ch e))))
                                (λ e.
                                  if_both P (ch == 75)
                                    (λ e.
                                      option_both P (pid_at procs t.selected_index) _ _ (λ n. same)
                                        (λ pid at. ask pid at (==→eq ch 75 e)))
                                    (λ e. same))))))))

  -- A property of all that `tui_handle_input` can do.
  pub tui_handle_input_all {κ} :
      (P : Outcome → Type κ) (ch : ℕ) (t : Tui) (sent : Sent)
      → (t.confirm_pending ≡ true
          → P (
              on_key permitted now procs ch
                (no_confirm (tell confirmation_expired (now.expired + 3) t))
                sent))
      → (t.confirm_pending ≡ true
          → now.checked < t.status_message_expiry
          → (ch ≡ 121) ⊎ (ch ≡ 89)
          → has_pid t.pending_kill_pid procs ≡ true
          → let r = signal_send_to_process permitted t.pending_kill_pid sigkill sent in
            P (
              true,
              no_confirm (tell (signalled sigkill r.0 t.pending_kill_pid) (now.acted + 3) t),
              r.1,
            ))
      → ((m : Status) → P (true, no_confirm (tell m (now.acted + 3) t), sent))
      → (t.confirm_pending ≡ false → P (on_key permitted now procs ch t sent))
      → P (tui_handle_input permitted now procs (some ch) t sent)
  unfolding tui_handle_input answer
  tui_handle_input_all P ch t sent expired kill none_sent idle =
      if_both P t.confirm_pending
        (λ pending.
          if_both P (leb t.status_message_expiry now.checked) (λ e. expired pending)
            (λ late.
              if_both P _
                (λ agreed.
                  if_both P _
                    (λ found. kill pending (leb→lt _ _ late) (one_of 121 89 ch agreed) found)
                    (λ e. none_sent (gone t.pending_kill_pid)))
                (λ e. none_sent cancelled)))
        idle

-- in range
pub tui_handle_input-selected :
    {F : Type 0} (permitted : Kill → Bool) (now : Clock) (procs : List (Process F)) (key : Option ℕ)
    (t : Tui) (sent : Sent)
    → t.selected_index < length procs
    → (tui_handle_input permitted now procs key t sent).1.selected_index < length procs
unfolding tui_handle_input
tui_handle_input-selected permitted now procs none t sent lt = lt
tui_handle_input-selected permitted now procs (some ch) t sent lt =
    let P : Outcome → Type 0 = λ o. o.1.selected_index < length procs in
    let key : (t : Tui)
        → t.selected_index < length procs
        → P (on_key permitted now procs ch t sent) =
      λ t lt.
        on_key_all permitted now procs P ch t sent lt (λ h. h) (omega arith) (λ m mode. lt)
          (λ pid sig at c. lt) (λ pid at c. lt) lt in
    tui_handle_input_all permitted now procs P ch t sent (λ e. key _ lt) (λ e f g h. lt) (λ m. lt)
      (λ e. key t lt)
