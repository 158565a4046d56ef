-- ===== src/Web/Tests.antt =====
-- The theorems about src/monitor/gui_server.c at small requests.
use linux_dynamic_memory_all.Prelude.{
  ℕ, ◌≡◌, ◌≤◌, ◌<◌, refl, Bool, true, false, ◌&&◌, none, some, List, [], ◌∷◌, ◌++◌, arith,
}
use linux_dynamic_memory_all.Prelude.Tests.{ltb}
use linux_dynamic_memory_all.Prelude.Lists.{length, All}
use linux_dynamic_memory_all.Text.{Text, codes, take}
use linux_dynamic_memory_all.Text.Number.{pos, decimal}
use linux_dynamic_memory_all.Signal.{Kill, signal_parse_name}
use linux_dynamic_memory_all.Web.Escape.{escape_json_string}
use linux_dynamic_memory_all.Web.EscapeLaws.{
  IsByte, read_string, length-escape_json_string, read_string-escape_json_string_prefix,
  read_string-escape_json_string,
}
use linux_dynamic_memory_all.Web.Auth.{check_auth}
use linux_dynamic_memory_all.Web.AuthLaws.{request, any_gives, check_auth-any_gives}
use linux_dynamic_memory_all.Web.Route.{Answered, client_request, client_request-Answered}
use linux_dynamic_memory_all.Web.FieldLaws.{signal_body}
use linux_dynamic_memory_all.Web.Request.{success, handle_process_signal}
use linux_dynamic_memory_all.Web.RequestLaws.{
  SentOne, handle_process_signal-SentOne, handle_process_signal-request,
}
use linux_dynamic_memory_all.Web.Workers.{
  Server, exited, flagged, destroyed, started, accept_gives, admit, launch, client_closes,
  client_leaves, stop_flags, stop_closes, stop_joins, stop_destroys, thread, test_running,
  accept_fails, refuse, launch_fails, lower, stop_waits, again, wait_again, send_again, ThreadStep,
  StopStep, stopping, Steps, done, step, Reached, count_steps,
}
use linux_dynamic_memory_all.Web.Workers.Inv.{IsSound}
use linux_dynamic_memory_all.Web.Workers.Laws.{Reached-IsSound}
use linux_dynamic_memory_all.Web.Workers.Shutdown.{count_steps-le, stuck-destroyed}
use linux_dynamic_memory_all.Web.Lifecycle.{
  Life, InitCalls, StartCalls, IsReady, IsReleased, gui_server_init, gui_server_start,
  gui_server_stop,
}
use linux_dynamic_memory_all.Web.LifecycleLaws.{
  Inited, gui_server_init-Inited, gui_server_stop-start,
}

abbrev quoted : Text
quoted = codes "a\"b"

abbrev only_bytes : Text → Bool
only_bytes [] = true
only_bytes (c ∷ t) = ltb c 256 && only_bytes t

only_bytes-All : (t : Text) → only_bytes t ≡ true → All (λ c. c < 256) t
only_bytes-All [] e = tt
only_bytes-All (c ∷ t) e = (ground arith, only_bytes-All t (ground arith))

quoted_bytes : All IsByte quoted
quoted_bytes = (
  (ground arith, ground arith),
  ((ground arith, ground arith), ((ground arith, ground arith), tt)),
)

length-escape_json_string_example : length (escape_json_string quoted 4) < 4
length-escape_json_string_example = length-escape_json_string quoted 4 (ground arith)

read_string-escape_json_string_prefix_example :
    (n : ℕ) × (n ≤ length quoted)
    × (read_string (escape_json_string quoted 4 ++ (34 ∷ codes "}"))
        ≡ some (take n quoted, codes "}"))
read_string-escape_json_string_prefix_example =
    read_string-escape_json_string_prefix quoted (codes "}") 4 quoted_bytes

read_string-escape_json_string_example :
    read_string (escape_json_string quoted 64 ++ (34 ∷ codes "}")) ≡ some (quoted, codes "}")
read_string-escape_json_string_example =
    read_string-escape_json_string quoted (codes "}") 64 quoted_bytes (ground arith)

abbrev token : Text
token = codes "t0k"

abbrev post_line : Text
post_line = codes "POST /api/process/signal HTTP/1.1"

abbrev post_headers : List Text
post_headers = codes "Host: h" ∷ codes "X-Auth-Token: t0k" ∷ []

abbrev post_body : Text
post_body = signal_body 4096 (codes "SIGTERM")

check_auth-any_gives_example :
    check_auth token (request post_line post_headers post_body)
    ≡ any_gives token (post_line ∷ post_headers)
unfolding decimal
check_auth-any_gives_example =
    check_auth-any_gives token (only_bytes-All token refl) post_line post_headers post_body
      (ground arith) refl (only_bytes-All (request post_line post_headers post_body) refl)

abbrev permit_all : Kill → Bool
permit_all k = true

handle_process_signal-SentOne_example :
    SentOne
      (check_auth token (request post_line [] post_body))
      permit_all
      []
      (handle_process_signal token permit_all (request post_line [] post_body) [])
handle_process_signal-SentOne_example =
    handle_process_signal-SentOne token permit_all (request post_line [] post_body) []

client_request-Answered_example :
    Answered
      (check_auth token (request post_line [] post_body))
      permit_all
      (request post_line [] post_body)
      []
      (client_request token permit_all (request post_line [] post_body) [])
client_request-Answered_example =
    client_request-Answered token permit_all (request post_line [] post_body) []

handle_process_signal-request_example :
    handle_process_signal token permit_all (request post_line post_headers post_body) []
    ≡ (success, record { pid = pos 4096; sig = 15 } ∷ [])
unfolding signal_parse_name decimal
handle_process_signal-request_example =
    handle_process_signal-request token permit_all [] post_line post_headers 4096 15
      (codes "SIGTERM") (only_bytes-All token refl) (ground arith) refl
      (only_bytes-All (request post_line post_headers post_body) refl) refl (ground arith)
      (ground arith) refl (ground arith) (ground arith) refl

-- One client is served when the shutdown begins.
abbrev serving_one : Server
serving_one = record started { active_workers = 1; serving = 5 ∷ []; open_fds = 5 ∷ [] }

abbrev stopping_one : Server
stopping_one = record serving_one { is_running = false; stop = flagged }

serving_one-Reached : Reached serving_one
serving_one-Reached = step _ _ _ (thread (test_running refl)) (
    step _ _ _ (thread (accept_gives 5 refl))
      (step _ _ _ (thread (admit 5 refl)) (step _ _ _ (thread (launch 5 refl)) (done serving_one))))

stopping_one-Reached : Reached stopping_one
stopping_one-Reached = step _ _ _ (thread (test_running refl)) (
    step _ _ _ (thread (accept_gives 5 refl)) (
      step _ _ _ (thread (admit 5 refl)) (
        step _ _ _ (thread (launch 5 refl))
          (step _ _ _ (stopping (stop_flags refl)) (done stopping_one)))))

-- What is left to do then.
abbrev stopped_one : Server
stopped_one = record started { is_running = false; acceptor = exited; stop = destroyed }

last_steps : Steps stopping_one stopped_one
last_steps = step _ _ _ (stopping (stop_closes refl)) (
    step _ _ _ (thread (test_running refl)) (
      step _ _ _ (stopping (stop_joins refl refl)) (
        step _ _ _ (stopping (stop_waits refl (ground arith))) (
          step _ _ _ (again (wait_again refl (ground arith))) (
            step _ _ _ (again (send_again 5 refl)) (
              step _ _ _ (thread (client_closes 5 refl)) (
                step _ _ _ (thread (client_leaves (ground arith)))
                  (step _ _ _ (stopping (stop_destroys refl refl)) (done stopped_one)))))))))

nothing_threaded : (s' : Server) → ¬ ThreadStep stopped_one s'
nothing_threaded _ (test_running e) = absurd (ground arith)
nothing_threaded _ (accept_gives fd e) = absurd (ground arith)
nothing_threaded _ (accept_fails r e) = absurd (ground arith)
nothing_threaded _ (admit fd e) = absurd (ground arith)
nothing_threaded _ (refuse fd e) = absurd (ground arith)
nothing_threaded _ (launch fd e) = absurd (ground arith)
nothing_threaded _ (launch_fails fd e) = absurd (ground arith)
nothing_threaded _ (lower e) = absurd (ground arith)
nothing_threaded _ (client_closes fd e) = absurd (ground arith)
nothing_threaded _ (client_leaves lt) = absurd (ground arith)

nothing_stopped : (s' : Server) → ¬ StopStep stopped_one s'
nothing_stopped _ (stop_flags e) = absurd (ground arith)
nothing_stopped _ (stop_closes e) = absurd (ground arith)
nothing_stopped _ (stop_joins e out) = absurd (ground arith)
nothing_stopped _ (stop_waits e lt) = absurd (ground arith)
nothing_stopped _ (stop_destroys e z) = absurd (ground arith)

stopped_one-Reached : Reached stopped_one
stopped_one-Reached = step _ _ _ (stopping (stop_flags refl)) (
    step _ _ _ (stopping (stop_closes refl)) (
      step _ _ _ (thread (test_running refl)) (
        step _ _ _ (stopping (stop_joins refl refl))
          (step _ _ _ (stopping (stop_destroys refl refl)) (done stopped_one)))))

Reached-IsSound_example : IsSound serving_one
Reached-IsSound_example = Reached-IsSound serving_one serving_one-Reached

count_steps-le_example : count_steps last_steps ≤ 107
count_steps-le_example =
    count_steps-le stopping_one stopped_one stopping_one-Reached refl last_steps

stuck-destroyed_example : stopped_one.stop ≡ destroyed
stuck-destroyed_example =
    stuck-destroyed stopping_one stopped_one stopping_one-Reached refl last_steps
      (nothing_threaded, nothing_stopped)

-- A server with all that it needs, and calls of which the last fails.
abbrev ready_server : Life
ready_server = record {
  bind_host = codes "127.0.0.1";
  port = 8080;
  auth_token = token;
  server_fd = none;
  is_running = false;
  initialized = true;
  worker_mutex = true;
  worker_cond = true;
  snapshot_lock = true;
  latest_snapshot = true;
  listeners = [];
}

ready_server-IsReady : IsReady [] ready_server
ready_server-IsReady = record {
  idle = refl;
  initialized = refl;
  has_mutex = refl;
  has_cond = refl;
  has_lock = refl;
  has_snapshot = refl;
  sockets = refl;
}

abbrev no_lock : InitCalls
no_lock = record {
  mutex_init = true;
  cond_init = true;
  snapshot_malloc = true;
  rwlock_init = false;
}

abbrev no_thread : StartCalls
no_thread = record {
  socket = some 4;
  inet_pton = true;
  bind = true;
  listen = true;
  pthread_create = false;
}

gui_server_init-Inited_example :
    Inited none
      (pos 8080)
      (some token)
      ready_server
      (gui_server_init no_lock none (pos 8080) (some token) ready_server)
gui_server_init-Inited_example =
    gui_server_init-Inited no_lock none (pos 8080) (some token) ready_server

gui_server_stop-start_example :
    IsReleased [] (gui_server_stop (gui_server_start no_thread ready_server).1)
gui_server_stop-start_example = gui_server_stop-start no_thread [] ready_server ready_server-IsReady
