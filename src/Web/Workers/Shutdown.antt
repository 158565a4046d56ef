-- ===== src/Web/Workers/Shutdown.antt =====
-- The shutdown of src/monitor/gui_server.c comes to its end.
use linux_dynamic_memory_all.Prelude.{
  ℕ, ◌+◌, ◌*◌, ◌≡◌, ◌≤◌, ◌<◌, ◌⊎◌, inl, inr, refl, ◌∙◌, true, false, List, [], ◌∷◌, arith,
}
use linux_dynamic_memory_all.Prelude.Tests.{leb, ◌==◌, Bool-cases, if_both, ==→eq}
use linux_dynamic_memory_all.Prelude.Lists.{length}
use linux_dynamic_memory_all.Web.Workers.{
  Acceptor, at_test, in_accept, accepted, admitted, turned_away, gave_up, exited, Stop, not_called,
  flagged, listener_closed, joined, destroyed, Server, max_client_workers, ThreadStep, test_running,
  accept_gives, accept_fails, admit, refuse, launch, launch_fails, lower, client_closes,
  client_leaves, StopStep, stop_flags, stop_closes, stop_joins, stop_destroys, stop_waits, waiting,
  broadcast, send_again, wait_again, again, IsStuck, thread, stopping, Steps, done, step, Reached,
  count_steps,
}
use linux_dynamic_memory_all.Web.Workers.Inv.{IsSound, length-erase, is_called, counted, given}
use linux_dynamic_memory_all.Web.Workers.Laws.{Reached-IsSound, Steps-IsSound}

-- How many steps are left at most to a thread in this place, once the server is not running.
abbrev pub acceptor_left : Acceptor → ℕ
acceptor_left at_test = 1
acceptor_left in_accept = 7
acceptor_left (accepted fd) = 6
acceptor_left (admitted fd) = 5
acceptor_left (turned_away fd) = 2
acceptor_left gave_up = 3
acceptor_left exited = 0

abbrev pub stop_left : Stop → ℕ
stop_left not_called = 5
stop_left flagged = 4
stop_left listener_closed = 3
stop_left joined = 2
stop_left waiting = 1
stop_left destroyed = 0

broadcast_left : (p : Stop) → stop_left (broadcast p) ≤ 1 + stop_left p
broadcast_left p = ground arith

abbrev pub steps_left : Server → ℕ
steps_left s = acceptor_left s.acceptor + 3 * length s.serving + 2 * s.leaving + stop_left s.stop

ThreadStep-left :
    (s s' : Server) → s.is_running ≡ false → ThreadStep s s' → steps_left s' < steps_left s
ThreadStep-left s s' off (test_running at) = rw (off, at) (ground arith)
ThreadStep-left s s' off (accept_gives fd at) = rw at (ground arith)
ThreadStep-left s s' off (accept_fails true at) = rw at (ground arith)
ThreadStep-left s s' off (accept_fails false at) = rw (off, at) (ground arith)
ThreadStep-left s s' off (admit fd at) =
    if_both (λ (t : Server). steps_left t < steps_left s) (leb max_client_workers s.active_workers)
      (λ e. rw at (ground arith)) (λ e. rw at (ground arith))
ThreadStep-left s s' off (refuse fd at) = rw at (ground arith)
ThreadStep-left s s' off (launch fd at) = rw at (ground arith)
ThreadStep-left s s' off (launch_fails fd at) = rw at (ground arith)
ThreadStep-left s s' off (lower at) = rw at (omega (arith, broadcast_left s.stop))
ThreadStep-left s s' off (client_closes fd mem) = omega (arith, length-erase fd s.serving mem)
ThreadStep-left s s' off (client_leaves lt) = omega (arith, broadcast_left s.stop)

StopStep-left : (s s' : Server) → StopStep s s' → steps_left s' < steps_left s
StopStep-left s s' (stop_flags at) = rw at (ground arith)
StopStep-left s s' (stop_closes at) = rw at (ground arith)
StopStep-left s s' (stop_joins at out) = rw at (ground arith)
StopStep-left s s' (stop_waits at some_left) = rw at (ground arith)
StopStep-left s s' (stop_destroys at none_left) = rw at (ground arith)

ThreadStep-stays_off :
    (s s' : Server) → s.is_running ≡ false → ThreadStep s s' → s'.is_running ≡ false
ThreadStep-stays_off s s' off (test_running at) = off
ThreadStep-stays_off s s' off (accept_gives fd at) = off
ThreadStep-stays_off s s' off (accept_fails retried at) = off
ThreadStep-stays_off s s' off (admit fd at) =
    if_both (λ (t : Server). t.is_running ≡ false) (leb max_client_workers s.active_workers)
      (λ e. off) (λ e. off)
ThreadStep-stays_off s s' off (refuse fd at) = off
ThreadStep-stays_off s s' off (launch fd at) = off
ThreadStep-stays_off s s' off (launch_fails fd at) = off
ThreadStep-stays_off s s' off (lower at) = off
ThreadStep-stays_off s s' off (client_closes fd mem) = off
ThreadStep-stays_off s s' off (client_leaves lt) = off

StopStep-stays_off : (s s' : Server) → s.is_running ≡ false → StopStep s s' → s'.is_running ≡ false
StopStep-stays_off s s' off (stop_flags at) = refl
StopStep-stays_off s s' off (stop_closes at) = off
StopStep-stays_off s s' off (stop_joins at out) = off
StopStep-stays_off s s' off (stop_waits at some_left) = off
StopStep-stays_off s s' off (stop_destroys at none_left) = off

count_steps-left :
    (s s' : Server)
    → s.is_running ≡ false
    → (ps : Steps s s') → count_steps ps + steps_left s' ≤ steps_left s
count_steps-left s s' off (done _) = omega arith
count_steps-left _ _ off (step s m s' (thread p) ps) =
    omega
      (arith, ThreadStep-left s m off p, count_steps-left m s' (ThreadStep-stays_off s m off p) ps)
count_steps-left _ _ off (step s m s' (stopping p) ps) =
    omega (arith, StopStep-left s m p, count_steps-left m s' (StopStep-stays_off s m off p) ps)
count_steps-left _ _ off (step s _ s' (again (send_again fd mem)) ps) = count_steps-left s s' off ps
count_steps-left _ _ off (step s _ s' (again (wait_again at lt)) ps) = count_steps-left s s' off ps

acceptor_left_le : (a : Acceptor) → acceptor_left a ≤ 7
acceptor_left_le a = ground arith

stop_left_le : (p : Stop) → is_called p ≡ true → stop_left p ≤ 4
stop_left_le p e = ground arith

steps_left_le : (s : Server) → IsSound s → is_called s.stop ≡ true → steps_left s ≤ 107
steps_left_le s i c =
    omega (arith, acceptor_left_le s.acceptor, stop_left_le s.stop c, i.counts, i.bounded)

-- From a state that the steps lead to and in which gui_server_stop has cleared is_running, every
-- sequence of steps of the threads and the shutdown, in any order, has at most 107 steps besides
-- the retries of send and the waits that return without a broadcast.
pub count_steps-le :
    (s s' : Server) → Reached s → is_called s.stop ≡ true → (ps : Steps s s') → count_steps ps ≤ 107
count_steps-le s s' r c ps =
    let i = Reached-IsSound s r in
    omega (arith, count_steps-left s s' (i.flag ∙ rw c refl) ps, steps_left_le s i c)

-- A step that is no repetition can be taken.
abbrev Moves : Server → Type 0
Moves s = ((s' : Server) × ThreadStep s s') ⊎ ((s' : Server) × StopStep s s')

client_Moves : (s : Server) → 0 < length s.serving + s.leaving → Moves s
client_Moves s lt = serving_Moves s.serving refl
  where
    serving_Moves : (xs : List ℕ) → s.serving ≡ xs → Moves s
    serving_Moves [] e =
        inl (_, client_leaves (let l : length s.serving ≡ 0 = rw e refl in omega arith))
    serving_Moves (fd ∷ xs) e = inl (_, client_closes fd (rw e (ground arith)))

acceptor_Moves : (s : Server) (a : Acceptor) → s.acceptor ≡ a → (a ≡ exited) ⊎ Moves s
acceptor_Moves s at_test e = inr (inl (_, test_running e))
acceptor_Moves s in_accept e = inr (inl (_, accept_fails true e))
acceptor_Moves s (accepted fd) e = inr (inl (_, admit fd e))
acceptor_Moves s (admitted fd) e = inr (inl (_, launch fd e))
acceptor_Moves s (turned_away fd) e = inr (inl (_, refuse fd e))
acceptor_Moves s gave_up e = inr (inl (_, lower e))
acceptor_Moves s exited e = inl refl

-- Who is counted in `active_workers` is a client thread, once the loop has ended.
counted_Moves : (s : Server) → IsSound s → s.acceptor ≡ exited → 0 < s.active_workers → Moves s
counted_Moves s i out lt =
    let n : counted s.acceptor ≡ 0 = rw out refl in client_Moves s (omega (arith, i.counts, lt))

stop_Moves :
    (s : Server) (p : Stop)
    → IsSound s
    → s.stop ≡ p
    → is_called p ≡ true
    → s.acceptor ≡ exited
    → (p ≡ destroyed) ⊎ Moves s
stop_Moves s not_called i e c out = absurd (ground arith)
stop_Moves s flagged i e c out = inr (inr (_, stop_closes e))
stop_Moves s listener_closed i e c out = inr (inr (_, stop_joins e out))
stop_Moves s joined i e c out = elim (Bool-cases (s.active_workers == 0)) [
  | inl z ↦ inr (inr (_, stop_destroys e (==→eq s.active_workers 0 z)))
  | inr z ↦ inr (inr (_, stop_waits e (positive s.active_workers z)))
]
  where
    positive : (n : ℕ) → (n == 0) ≡ false → 0 < n
    positive n z = ground arith
stop_Moves s waiting i e c out = inr (counted_Moves s i out (given i.waits (rw e refl)))
stop_Moves s destroyed i e c out = inl refl

shutdown_Moves : (s : Server) → IsSound s → is_called s.stop ≡ true → (s.stop ≡ destroyed) ⊎ Moves s
shutdown_Moves s i c = elim (acceptor_Moves s s.acceptor refl) [
  | inl out ↦ stop_Moves s s.stop i refl c out
  | inr m ↦ inr m
]

broadcast-is_called : (p : Stop) → is_called p ≡ true → is_called (broadcast p) ≡ true
broadcast-is_called p e = ground arith

ThreadStep-is_called :
    (s s' : Server) → is_called s.stop ≡ true → ThreadStep s s' → is_called s'.stop ≡ true
ThreadStep-is_called s s' c (test_running at) = c
ThreadStep-is_called s s' c (accept_gives fd at) = c
ThreadStep-is_called s s' c (accept_fails retried at) = c
ThreadStep-is_called s s' c (admit fd at) =
    if_both (λ (t : Server). is_called t.stop ≡ true) (leb max_client_workers s.active_workers)
      (λ e. c) (λ e. c)
ThreadStep-is_called s s' c (refuse fd at) = c
ThreadStep-is_called s s' c (launch fd at) = c
ThreadStep-is_called s s' c (launch_fails fd at) = c
ThreadStep-is_called s s' c (lower at) = broadcast-is_called s.stop c
ThreadStep-is_called s s' c (client_closes fd mem) = c
ThreadStep-is_called s s' c (client_leaves lt) = broadcast-is_called s.stop c

StopStep-is_called :
    (s s' : Server) → is_called s.stop ≡ true → StopStep s s' → is_called s'.stop ≡ true
StopStep-is_called s s' c (stop_flags at) = refl
StopStep-is_called s s' c (stop_closes at) = refl
StopStep-is_called s s' c (stop_joins at out) = refl
StopStep-is_called s s' c (stop_waits at some_left) = refl
StopStep-is_called s s' c (stop_destroys at none_left) = refl

Steps-is_called : (s s' : Server) → is_called s.stop ≡ true → Steps s s' → is_called s'.stop ≡ true
Steps-is_called _ _ c (done s) = c
Steps-is_called _ _ c (step s m s' (thread p) ps) =
    Steps-is_called m s' (ThreadStep-is_called s m c p) ps
Steps-is_called _ _ c (step s m s' (stopping p) ps) =
    Steps-is_called m s' (StopStep-is_called s m c p) ps
Steps-is_called _ _ c (step s _ s' (again (send_again fd mem)) ps) = Steps-is_called s s' c ps
Steps-is_called _ _ c (step s _ s' (again (wait_again at lt)) ps) = Steps-is_called s s' c ps

-- Whatever steps are taken, in any order, after gui_server_stop has cleared is_running: if in the
-- state that they lead to nothing can happen but a retry of send or a wait that returns without a
-- broadcast, then the shutdown is at its end. In particular it does not wait for a broadcast that
-- no thread will make.
pub stuck-destroyed :
    (s s' : Server)
    → Reached s
    → is_called s.stop ≡ true
    → Steps s s'
    → IsStuck s'
    → s'.stop ≡ destroyed
stuck-destroyed s s' r c ps (no_thread, no_stop) =
    let i = Steps-IsSound s s' (Reached-IsSound s r) ps in
    elim (shutdown_Moves s' i (Steps-is_called s s' c ps)) [
      | inl at ↦ at
      | inr (inl (m, p)) ↦ absurd (no_thread m p)
      | inr (inr (m, p)) ↦ absurd (no_stop m p)
    ]
