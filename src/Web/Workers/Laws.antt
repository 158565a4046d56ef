-- ===== src/Web/Workers/Laws.antt =====
-- The threads of src/monitor/gui_server.c at every moment, and after the shutdown.
use linux_dynamic_memory_all.Prelude.{
  ℕ, ◌≡◌, ◌<◌, refl, ◌∙◌, Bool, true, false, not, ◌||◌, List, [], ◌∷◌, arith,
}
use linux_dynamic_memory_all.Prelude.Tests.{leb, if_both}
use linux_dynamic_memory_all.Prelude.Lists.{length}
use linux_dynamic_memory_all.Web.Workers.{
  at_test, in_accept, turned_away, gave_up, exited, Stop, flagged, listener_closed, joined,
  destroyed, Server, started, max_client_workers, ThreadStep, test_running, accept_gives,
  accept_fails, admit, refuse, launch, launch_fails, lower, client_closes, client_leaves, StopStep,
  stop_flags, stop_closes, stop_joins, stop_waits, waiting, stop_destroys, AgainStep, send_again,
  wait_again, again, thread, stopping, Steps, done, step, Reached,
}
use linux_dynamic_memory_all.Web.Workers.Inv.{
  has_destroyed, is_waiting, unless, given, IsSound, is_called, has_joined, occurs, started-IsSound,
  goes_on, accept_gives-IsSound, admit-IsSound, close-IsSound, launch-IsSound, lower-IsSound,
  client_closes-IsSound, client_leaves-IsSound,
}

pub ThreadStep-IsSound : (s s' : Server) → IsSound s → ThreadStep s s' → IsSound s'
ThreadStep-IsSound s s' i (test_running at) =
    if_both (λ a. IsSound (record s { acceptor = a })) s.is_running
      (λ e. goes_on s in_accept i (λ x. ground (arith, at, x)) (rw at refl) (λ n. rw at refl))
      (λ e. goes_on s exited i (λ x. ground (arith, at, x)) (rw at refl) (λ n. rw at refl))
ThreadStep-IsSound s s' i (accept_gives fd at) = accept_gives-IsSound s fd i at
ThreadStep-IsSound s s' i (accept_fails retried at) =
    if_both (λ a. IsSound (record s { acceptor = a })) (retried || s.is_running)
      (λ e. goes_on s at_test i (λ x. ground (arith, at, x)) (rw at refl) (λ n. rw at refl))
      (λ e. goes_on s exited i (λ x. ground (arith, at, x)) (rw at refl) (λ n. rw at refl))
ThreadStep-IsSound s s' i (admit fd at) =
    if_both IsSound (leb max_client_workers s.active_workers)
      (λ e.
        goes_on s (turned_away fd) i (λ x. ground (arith, at, x)) (rw at refl) (λ n. rw at refl))
      (λ e. admit-IsSound s fd i at (ground arith))
ThreadStep-IsSound s s' i (refuse fd at) =
    close-IsSound s fd at_test i (λ x. ground (arith, at, x)) (rw at refl) (λ n. rw at refl)
      (λ n. refl)
ThreadStep-IsSound s s' i (launch fd at) = launch-IsSound s fd i at
ThreadStep-IsSound s s' i (launch_fails fd at) =
    close-IsSound s fd gave_up i (λ x. ground (arith, at, x)) (rw at refl) (λ n. rw at refl)
      (λ n. refl)
ThreadStep-IsSound s s' i (lower at) = lower-IsSound s i at
ThreadStep-IsSound s s' i (client_closes fd mem) = client_closes-IsSound s fd i mem
ThreadStep-IsSound s s' i (client_leaves lt) = client_leaves-IsSound s i lt

-- The shutdown goes on.
stops_at :
    (s : Server) (running : Bool) (p : Stop)
    → IsSound s
    → running ≡ not (is_called p)
    → (has_joined p ≡ true → s.acceptor ≡ exited)
    → (has_destroyed p ≡ true → s.active_workers ≡ 0)
    → (is_waiting p ≡ true → 0 < s.active_workers)
    → IsSound (record s { is_running = running; stop = p })
stops_at s running p i f l z w = record {
  counts = i.counts;
  bounded = i.bounded;
  owned = i.owned;
  flag = f;
  left_loop = unless _ l;
  left_all = unless _ z;
  waits = unless _ w;
}

pub StopStep-IsSound : (s s' : Server) → IsSound s → StopStep s s' → IsSound s'
StopStep-IsSound s s' i (stop_flags at) =
    stops_at s false flagged i refl (λ e. absurd (ground arith)) (λ e. absurd (ground arith))
      (λ e. absurd (ground arith))
StopStep-IsSound s s' i (stop_closes at) =
    stops_at s s.is_running listener_closed i (rw i.flag (rw at refl)) (λ e. absurd (ground arith))
      (λ e. absurd (ground arith)) (λ e. absurd (ground arith))
StopStep-IsSound s s' i (stop_joins at out) =
    stops_at s s.is_running joined i (rw i.flag (rw at refl)) (λ e. out)
      (λ e. absurd (ground arith)) (λ e. absurd (ground arith))
StopStep-IsSound s s' i (stop_waits at some_left) =
    stops_at s s.is_running waiting i (rw i.flag (rw at refl)) (λ e. given i.left_loop (rw at refl))
      (λ e. absurd (ground arith)) (λ e. some_left)
StopStep-IsSound s s' i (stop_destroys at none_left) =
    stops_at s s.is_running destroyed i (rw i.flag (rw at refl))
      (λ e. given i.left_loop (rw at refl)) (λ e. none_left) (λ e. absurd (ground arith))

pub AgainStep-IsSound : (s s' : Server) → IsSound s → AgainStep s s' → IsSound s'
AgainStep-IsSound s _ i (send_again fd mem) = i
AgainStep-IsSound s _ i (wait_again at lt) = i

pub Steps-IsSound : (s s' : Server) → IsSound s → Steps s s' → IsSound s'
Steps-IsSound _ _ i (done s) = i
Steps-IsSound _ _ i (step s m s' (thread p) ps) = Steps-IsSound m s' (ThreadStep-IsSound s m i p) ps
Steps-IsSound _ _ i (step s m s' (stopping p) ps) = Steps-IsSound m s' (StopStep-IsSound s m i p) ps
Steps-IsSound _ _ i (step s m s' (again p) ps) = Steps-IsSound m s' (AgainStep-IsSound s m i p) ps

-- In every state that the steps of the accept loop, the client threads and the shutdown lead to,
-- active_workers is the number of the client threads and of the connection that is to be handed to
-- one, at most 32; each open connection is in one hand; and the shutdown is past the join only
-- when the loop has ended, and past the wait only when active_workers is 0.
pub Reached-IsSound : (s : Server) → Reached s → IsSound s
Reached-IsSound s ps = Steps-IsSound started s started-IsSound ps

length_zero : (xs : List ℕ) → length xs ≡ 0 → xs ≡ []
length_zero [] e = refl
length_zero (x ∷ xs) e = absurd (ground arith)

occurs_none : (xs : List ℕ) → ((a : ℕ) → occurs a xs ≡ 0) → xs ≡ []
occurs_none [] h = refl
occurs_none (x ∷ xs) h = absurd (let k = h x in ground arith)

-- When the shutdown has destroyed the mutex and the condition variable, the accept loop has ended,
-- no client thread is left that could use them, and no connection is open.
pub Reached-destroyed :
    (s : Server)
    → Reached s
    → s.stop ≡ destroyed
    → (s.acceptor ≡ exited) × (s.serving ≡ []) × (s.leaving ≡ 0) × (s.open_fds ≡ [])
Reached-destroyed s ps at =
    let i = Reached-IsSound s ps in
    let out = given i.left_loop (rw at refl) in
    let alone : s.serving ≡ [] =
      length_zero s.serving (omega (arith, i.counts, given i.left_all (rw at refl))) in
    (
      out,
      alone,
      omega (arith, i.counts, given i.left_all (rw at refl)),
      occurs_none s.open_fds (λ a. i.owned a ∙ rw (alone, out) refl),
    )
