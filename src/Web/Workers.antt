-- ===== src/Web/Workers.antt =====
-- The threads of src/monitor/gui_server.c: the accept loop, the threads of the clients and the
-- shutdown. A part of a thread that no other thread sees halfway is one step.
pub mod Inv
pub mod Laws
pub mod Shutdown
use linux_dynamic_memory_all.Prelude.{
  ℕ, zero, suc, ◌+◌, ◌-◌, ◌≡◌, ◌≤◌, ◌<◌, Bool, true, false, not, ◌&&◌, ◌||◌, Option, none, some,
  List, [], ◌∷◌,
}
use linux_dynamic_memory_all.Prelude.Tests.{ltb, leb, ◌==◌, if◌then◌else◌}
use linux_dynamic_memory_all.Prelude.Lists.{length, has, erase}

-- MAX_CLIENT_WORKERS.
abbrev pub max_client_workers : ℕ
max_client_workers = 32

-- Where `gui_server_worker` is; a number is the descriptor of the connection in its hands.
pub data Acceptor : Type 0 where
  -- At the test of `is_running`, and in `accept`.
  at_test in_accept : Acceptor
  -- Not yet counted; counted; to be answered 503.
  accepted admitted turned_away : ℕ → Acceptor
  -- The connection is closed and `active_workers` not yet lowered.
  gave_up : Acceptor
  exited : Acceptor

-- How far `gui_server_stop` is.
pub data Stop : Type 0 where
  -- `joined` is at the test of `active_workers`, with the mutex; `waiting` is in `pthread_cond_wait`.
  not_called flagged listener_closed joined waiting destroyed : Stop

-- `pthread_cond_broadcast`: what waits takes the mutex and is back at its test.
abbrev pub broadcast : Stop → Stop
broadcast waiting = joined
broadcast p = p

pub record Server : Type 0 where
  pub is_running : Bool
  pub active_workers : ℕ
  pub acceptor : Acceptor
  -- The connections of the threads that serve, and the number of the threads that have closed
  -- theirs and not yet lowered `active_workers`.
  pub serving : List ℕ
  pub leaving : ℕ
  -- The connections that are open.
  pub open_fds : List ℕ
  pub stop : Stop

-- `gui_server_start` has just succeeded.
abbrev pub started : Server
started = record {
  is_running = true;
  active_workers = 0;
  acceptor = at_test;
  serving = [];
  leaving = 0;
  open_fds = [];
  stop = not_called;
}

-- `gui_server_worker` and the end of `client_thread_worker`.
pub data ThreadStep (s : Server) : Server → Type 0 where
  test_running :
      s.acceptor ≡ at_test
      → ThreadStep s (record s { acceptor = if s.is_running then in_accept else exited })
  accept_gives :
      (fd : ℕ)
      → s.acceptor ≡ in_accept
      → ThreadStep s (record s { acceptor = accepted fd; open_fds = fd ∷ s.open_fds })
  -- The error is one of those that are retried or not.
  accept_fails :
      (retried : Bool)
      → s.acceptor ≡ in_accept
      → ThreadStep s (record s { acceptor = if retried || s.is_running then at_test else exited })
  -- The test and the count, under the mutex.
  admit :
      (fd : ℕ)
      → s.acceptor ≡ accepted fd
      → ThreadStep s (
          if leb max_client_workers s.active_workers
          then record s { acceptor = turned_away fd }
          else record s { acceptor = admitted fd; active_workers = suc s.active_workers })
  refuse :
      (fd : ℕ)
      → s.acceptor ≡ turned_away fd
      → ThreadStep s (record s { acceptor = at_test; open_fds = erase fd s.open_fds })
  launch :
      (fd : ℕ)
      → s.acceptor ≡ admitted fd
      → ThreadStep s (record s { acceptor = at_test; serving = fd ∷ s.serving })
  -- The allocation, the attributes or `pthread_create` fails.
  launch_fails :
      (fd : ℕ)
      → s.acceptor ≡ admitted fd
      → ThreadStep s (record s { acceptor = gave_up; open_fds = erase fd s.open_fds })
  lower :
      s.acceptor ≡ gave_up
      → ThreadStep s (record s {
        acceptor = at_test;
        active_workers = s.active_workers - 1;
        stop = broadcast s.stop;
      })
  client_closes :
      (fd : ℕ)
      → has fd s.serving ≡ true
      → ThreadStep s (record s {
        serving = erase fd s.serving;
        open_fds = erase fd s.open_fds;
        leaving = suc s.leaving;
      })
  client_leaves :
      0 < s.leaving
      → ThreadStep s (record s {
        leaving = s.leaving - 1;
        active_workers = s.active_workers - 1;
        stop = broadcast s.stop;
      })

-- `gui_server_stop` of a running server.
pub data StopStep (s : Server) : Server → Type 0 where
  stop_flags : s.stop ≡ not_called → StopStep s (record s { is_running = false; stop = flagged })
  stop_closes : s.stop ≡ flagged → StopStep s (record s { stop = listener_closed })
  stop_joins :
      s.stop ≡ listener_closed → s.acceptor ≡ exited → StopStep s (record s { stop = joined })
  stop_waits : s.stop ≡ joined → 0 < s.active_workers → StopStep s (record s { stop = waiting })
  stop_destroys :
      s.stop ≡ joined → s.active_workers ≡ 0 → StopStep s (record s { stop = destroyed })

-- What a loop may repeat without an end: a `send` of a client thread that is to be retried, and a
-- `pthread_cond_wait` that returns without a broadcast, whose loop waits again.
pub data AgainStep (s : Server) : Server → Type 0 where
  send_again : (fd : ℕ) → has fd s.serving ≡ true → AgainStep s s
  wait_again : s.stop ≡ waiting → 0 < s.active_workers → AgainStep s s

pub data Step (s s' : Server) : Type 0 where
  thread : ThreadStep s s' → Step s s'
  stopping : StopStep s s' → Step s s'
  again : AgainStep s s' → Step s s'

-- Sequences of steps.
pub data Steps : Server → Server → Type 0 where
  done : (s : Server) → Steps s s
  step : (s s' s'' : Server) → Step s s' → Steps s' s'' → Steps s s''

-- The states that the steps lead to.
abbrev pub Reached : Server → Type 0
Reached s = Steps started s

-- The steps that are no repetition.
abbrev pub count_steps : {s s' : Server} → Steps s s' → ℕ
count_steps (done s) = 0
count_steps (step s s' s'' (thread p) ps) = suc (count_steps ps)
count_steps (step s s' s'' (stopping p) ps) = suc (count_steps ps)
count_steps (step s s' s'' (again p) ps) = count_steps ps

-- Nothing but a repetition can happen.
abbrev pub IsStuck : Server → Type 0
IsStuck s = ((s' : Server) → ¬ ThreadStep s s') × ((s' : Server) → ¬ StopStep s s')
