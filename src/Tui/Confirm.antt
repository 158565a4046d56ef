-- ===== src/Tui/Confirm.antt =====
-- Which signals the terminal interface sends: src/ui/tui.c in the loop of src/monitor/main.c.
use linux_dynamic_memory_all.Prelude.{
  ℕ, ◌+◌, ◌≡◌, ◌<◌, ◌⊎◌, inl, inr, refl, ap, sym, ◌∙◌, Bool, true, false, none, some, List, [], ◌∷◌,
  arith,
}
use linux_dynamic_memory_all.Prelude.Tests.{Bool-cases, if_both, option_both, option_cases}
use linux_dynamic_memory_all.Prelude.Lists.{length}
use linux_dynamic_memory_all.Text.Number.{ℤ, leℤ}
use linux_dynamic_memory_all.Signal.{Kill, Sent, signal_send_to_process, sigkill, sigstop, sigcont}
use linux_dynamic_memory_all.Proc.{Process}
use linux_dynamic_memory_all.Tui.{
  Tui, Clock, SortMode, tui_render, tui_handle_input, on_key, pid_at, has_pid,
}
use linux_dynamic_memory_all.Tui.Frames.{Frame, frame, frames}
use linux_dynamic_memory_all.Tui.Laws.{on_key_all, tui_handle_input_all}

-- What a key sends, at a state with the processes `procs`.
data Sends {F : Type 0} (now : Clock) (procs : List (Process F)) (ch : ℕ) (t : Tui) (sent : Sent)
    : Sent → Type 0 where
  silent : Sends now procs ch t sent sent
  selected :
      (pid : ℤ) (sig : ℕ)
      → pid_at procs t.selected_index ≡ some pid
      → ((sig ≡ sigstop) × ((ch ≡ 115) ⊎ (ch ≡ 83))) ⊎ ((sig ≡ sigcont) × ((ch ≡ 99) ⊎ (ch ≡ 67)))
      → Sends now procs ch t sent (record { pid = pid; sig = sig } ∷ sent)
  answered :
      t.confirm_pending ≡ true
      → now.checked < t.status_message_expiry
      → (ch ≡ 121) ⊎ (ch ≡ 89)
      → has_pid t.pending_kill_pid procs ≡ true
      → Sends now procs ch t sent (record { pid = t.pending_kill_pid; sig = sigkill } ∷ sent)

-- The state asks to confirm a kill because of this key.
abbrev AsksNow : {F : Type 0} → Clock → List (Process F) → ℕ → ℕ → Tui → Type 0
AsksNow now procs ch i t =
    (ch ≡ 75)
    × (pid_at procs i ≡ some t.pending_kill_pid)
    × (t.status_message_expiry ≡ now.acted + 10)

send_either {κ} :
    (P : Sent → Type κ) (permitted : Kill → Bool) (pid : ℤ) (sig : ℕ) (sent : Sent)
    → P sent
    → P (record { pid = pid; sig = sig } ∷ sent)
    → P (signal_send_to_process permitted pid sig sent).1
unfolding signal_send_to_process
send_either P permitted pid sig sent p q = elim (Bool-cases (leℤ pid 1)) [
  | inl e ↦ rw e p
  | inr e ↦ rw e q
]

module _ {F : Type 0} (permitted : Kill → Bool) (now : Clock) (procs : List (Process F)) where
  on_key-Sends :
      (ch : ℕ) (t t' : Tui) (sent : Sent)
      → t.selected_index ≡ t'.selected_index
      → Sends now procs ch t sent (on_key permitted now procs ch t' sent).2
  on_key-Sends ch t t' sent e =
      let S = Sends now procs ch t sent in
      on_key_all permitted now procs (λ o. S o.2) ch t' sent silent (λ h. silent) silent
        (λ m mode. silent)
        (λ pid sig at c. send_either S permitted pid sig sent silent (selected pid sig (rw e at) c))
        (λ pid at c. silent) silent

  tui_handle_input-Sends :
      (ch : ℕ) (t : Tui) (sent : Sent)
      → Sends now procs ch t sent (tui_handle_input permitted now procs (some ch) t sent).2
  tui_handle_input-Sends ch t sent =
      let S = Sends now procs ch t sent in
      tui_handle_input_all permitted now procs (λ o. S o.2) ch t sent
        (λ e. on_key-Sends ch t _ sent refl)
        (λ pending intime agreed found.
          send_either S permitted t.pending_kill_pid sigkill sent silent
            (answered pending intime agreed found))
        (λ m. silent) (λ e. on_key-Sends ch t t sent refl)

  on_key-AsksNow :
      (ch : ℕ) (t : Tui) (sent : Sent)
      → t.confirm_pending ≡ false
      → (on_key permitted now procs ch t sent).1.confirm_pending ≡ true
      → AsksNow now procs ch t.selected_index (on_key permitted now procs ch t sent).1
  on_key-AsksNow ch t sent idle =
      on_key_all permitted now procs
        (λ o. o.1.confirm_pending ≡ true → AsksNow now procs ch t.selected_index o.1) ch t sent
        (λ e. absurd (ground arith)) (λ h e. absurd (ground arith)) (λ e. absurd (ground arith))
        (λ m mode e. absurd (ground arith)) (λ pid sig at c e. absurd (ground arith))
        (λ pid at k e. (k, at, refl)) (λ e. absurd (ground arith))

  tui_handle_input-AsksNow :
      (ch : ℕ) (t : Tui) (sent : Sent)
      → (tui_handle_input permitted now procs (some ch) t sent).1.confirm_pending ≡ true
      → AsksNow now procs ch t.selected_index
          (tui_handle_input permitted now procs (some ch) t sent).1
  tui_handle_input-AsksNow ch t sent =
      tui_handle_input_all permitted now procs
        (λ o. o.1.confirm_pending ≡ true → AsksNow now procs ch t.selected_index o.1) ch t sent
        (λ e. on_key-AsksNow ch _ sent refl) (λ a b c d e. absurd (ground arith))
        (λ m e. absurd (ground arith)) (on_key-AsksNow ch t sent)

module _ {F : Type 0} (qsort : SortMode → List (Process F) → List (Process F))
    (permitted : Kill → Bool) where
  abbrev after : List (Frame F) → Tui × Sent
  after fs = frames qsort permitted fs

  -- The processes in the order shown, and the state shown.
  abbrev shown : Frame F → List (Frame F) → List (Process F) → List (Process F) × Tui
  shown f fs procs =
      let t = (after fs).0 in (qsort t.sort_mode procs, tui_render f.rows (length procs) t)

  -- The last key pressed is `K`, at the time `t`, when the process `pid` was the selected one.
  pub data Asked (pid : ℤ) (at : ℕ) : List (Frame F) → Type 0 where
    asked :
        (f : Frame F) (fs : List (Frame F)) (procs : List (Process F))
        → f.taken ≡ some procs
        → f.key ≡ some 75
        → pid_at (shown f fs procs).0 (shown f fs procs).1.selected_index ≡ some pid
        → at ≡ f.now.acted
        → Asked pid at (f ∷ fs)
    no_key :
        (f : Frame F) (fs : List (Frame F))
        → (f.key ≡ none) ⊎ (f.taken ≡ none) ⊎ ((after fs).0.is_running ≡ false)
        → Asked pid at fs
        → Asked pid at (f ∷ fs)

  -- What one more frame sends.
  pub data Authorised (f : Frame F) (fs : List (Frame F)) (sent : Sent) : Sent → Type 0 where
    nothing : Authorised f fs sent sent
    for_selected :
        (pid : ℤ) (sig ch : ℕ) (procs : List (Process F))
        → f.taken ≡ some procs
        → f.key ≡ some ch
        → pid_at (shown f fs procs).0 (shown f fs procs).1.selected_index ≡ some pid
        → ((sig ≡ sigstop) × ((ch ≡ 115) ⊎ (ch ≡ 83))) ⊎ ((sig ≡ sigcont) × ((ch ≡ 99) ⊎ (ch ≡ 67)))
        → Authorised f fs sent (record { pid = pid; sig = sig } ∷ sent)
    confirmed :
        (pid : ℤ) (at ch : ℕ) (procs : List (Process F))
        → f.taken ≡ some procs
        → f.key ≡ some ch
        → (ch ≡ 121) ⊎ (ch ≡ 89)
        → Asked pid at fs
        → f.now.checked < at + 10
        → has_pid pid (shown f fs procs).0 ≡ true
        → Authorised f fs sent (record { pid = pid; sig = sigkill } ∷ sent)

  abbrev Pending : List (Frame F) → Tui → Type 0
  Pending fs t =
      t.confirm_pending ≡ true
      → (at : ℕ) × Asked t.pending_kill_pid at fs × (t.status_message_expiry ≡ at + 10)

  input-Pending :
      (f : Frame F) (fs : List (Frame F)) (procs : List (Process F)) (t : Tui) (sent : Sent)
      → f.taken ≡ some procs
      → t ≡ (shown f fs procs).1
      → Pending fs t
      → Pending (f ∷ fs) (tui_handle_input permitted f.now (shown f fs procs).0 f.key t sent).1
  unfolding tui_handle_input
  input-Pending f fs procs t sent taken e ih =
      option_cases
        (λ k. Pending (f ∷ fs) (tui_handle_input permitted f.now (shown f fs procs).0 k t sent).1)
        f.key (λ q p. let (at, a, d) = ih p in (at, no_key f fs (inl q) a, d))
        (λ ch q p.
          let (k, at, d) =
            tui_handle_input-AsksNow permitted f.now (shown f fs procs).0 ch t sent p in
          (
            f.now.acted,
            asked f fs procs taken (q ∙ ap (λ c. some c) k)
                (sym (ap (λ (u : Tui). pid_at (shown f fs procs).0 u.selected_index) e) ∙ at) refl,
            d,
          ))

  frames-Pending : (fs : List (Frame F)) → Pending fs (after fs).0
  unfolding frames frame tui_render
  frames-Pending [] = λ p. absurd (ground arith)
  frames-Pending (f ∷ fs) =
      if_both (λ (r : Tui × Sent). Pending (f ∷ fs) r.0) (after fs).0.is_running
        (λ run.
          option_both (λ (r : Tui × Sent). Pending (f ∷ fs) r.0) f.taken (after fs) _
            (λ n p. let (at, a, d) = frames-Pending fs p in (at, no_key f fs (inr (inl n)) a, d))
            (λ procs taken.
              input-Pending f fs procs (shown f fs procs).1 (after fs).1 taken refl
                (frames-Pending fs)))
        (λ stop p. let (at, a, d) = frames-Pending fs p in (at, no_key f fs (inr (inr stop)) a, d))

  input-Authorised :
      (f : Frame F) (fs : List (Frame F)) (procs : List (Process F)) (t : Tui) (sent : Sent)
      → f.taken ≡ some procs
      → t ≡ (shown f fs procs).1
      → Pending fs t
      → Authorised f fs sent (tui_handle_input permitted f.now (shown f fs procs).0 f.key t sent).2
  unfolding tui_handle_input
  input-Authorised f fs procs t sent taken e ih =
      option_cases
        (λ k.
          Authorised f fs sent (tui_handle_input permitted f.now (shown f fs procs).0 k t sent).2)
        f.key (λ q. nothing)
        (λ ch q.
          sends_authorised ch q
            (tui_handle_input-Sends permitted f.now (shown f fs procs).0 ch t sent))
    where
      sends_authorised :
          (ch : ℕ)
          → f.key ≡ some ch
          → {s : Sent} → Sends f.now (shown f fs procs).0 ch t sent s
          → Authorised f fs sent s
      sends_authorised ch q silent = nothing
      sends_authorised ch q (selected pid sig at c) =
          for_selected pid sig ch procs taken q
            (sym (ap (λ (u : Tui). pid_at (shown f fs procs).0 u.selected_index) e) ∙ at) c
      sends_authorised ch q (answered p intime agreed found) =
          let (at, a, d) = ih p in
          confirmed t.pending_kill_pid at ch procs taken q agreed a (omega (arith, d, intime)) found

  -- In every frame of the terminal interface, what is sent is nothing; or SIGSTOP or SIGCONT to
  -- the process selected when s or c is pressed; or SIGKILL to a process in the snapshot when y is
  -- pressed, if the last key pressed before was K with that process selected, less than 10 seconds
  -- before.
  pub frames-Authorised :
      (f : Frame F) (fs : List (Frame F)) → Authorised f fs (after fs).1 (after (f ∷ fs)).1
  unfolding frames frame tui_render
  frames-Authorised f fs =
      let P : Tui × Sent → Type 0 = λ r. Authorised f fs (after fs).1 r.1 in
      if_both P (after fs).0.is_running
        (λ run.
          option_both P f.taken (after fs) _ (λ n. nothing)
            (λ procs taken.
              input-Authorised f fs procs (shown f fs procs).1 (after fs).1 taken refl
                (frames-Pending fs)))
        (λ stop. nothing)
