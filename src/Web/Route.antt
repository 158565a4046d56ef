-- ===== src/Web/Route.antt =====
-- `client_thread_worker` of src/monitor/gui_server.c, from the request to the response.
use linux_dynamic_memory_all.Prelude.{◌≡◌, Bool, true, ◌||◌}
use linux_dynamic_memory_all.Prelude.Tests.{if◌then◌else◌, if_both}
use linux_dynamic_memory_all.Text.{Text, codes, starts}
use linux_dynamic_memory_all.Signal.{Kill, Sent}
use linux_dynamic_memory_all.Web.Auth.{check_auth}
use linux_dynamic_memory_all.Web.Request.{Reply, handle_process_signal}
use linux_dynamic_memory_all.Web.RequestLaws.{SentOne, handle_process_signal-SentOne}

-- What is sent back: a file with its type, the metrics, the reply to a signal request, or an error.
pub data Response : Type 0 where
  file : Text → Text → Response
  metrics : Response
  process_signal : Reply → Response
  not_found method_not_allowed : Response

abbrev pub signal_prefix : Text
signal_prefix = codes "POST /api/process/signal"

abbrev known_method : Text → Bool
known_method buffer =
    starts (codes "GET ") buffer
    || starts (codes "POST ") buffer
    || starts (codes "PUT ") buffer
    || starts (codes "DELETE ") buffer

unfoldable pub client_request : Text → (Kill → Bool) → Text → Sent → Response × Sent
client_request token permitted buffer sent =
    let r = handle_process_signal token permitted buffer sent in
    if starts (codes "GET / ") buffer || starts (codes "GET /index.html") buffer
    then (file (codes "web/index.html") (codes "text/html"), sent)
    else if starts (codes "GET /style.css") buffer
    then (file (codes "web/style.css") (codes "text/css"), sent)
    else if starts (codes "GET /app.js") buffer
    then (file (codes "web/app.js") (codes "application/javascript"), sent)
    else if starts (codes "GET /api/metrics") buffer
    then (metrics, sent)
    else if starts signal_prefix buffer
    then (process_signal r.0, r.1)
    else if known_method buffer
    then (not_found, sent)
    else (method_not_allowed, sent)

-- A response, and what was sent for it.
pub data Answered (granted : Bool) (permitted : Kill → Bool) (buffer : Text) (sent : Sent)
    : Response × Sent → Type 0 where
  quiet : (r : Response) → Answered granted permitted buffer sent (r, sent)
  signalled :
      (r : Reply) (sent' : Sent)
      → starts signal_prefix buffer ≡ true
      → SentOne granted permitted sent (r, sent')
      → Answered granted permitted buffer sent (process_signal r, sent')

-- For every token, request and outcome of kill, a client thread sends no signal unless the request
-- begins with POST /api/process/signal; then what it sends and answers is as for
-- handle_process_signal: nothing, or, if check_auth grants the request, one signal from 0 to 31 to
-- one process from 2 to 4194304.
pub client_request-Answered :
    (token : Text) (permitted : Kill → Bool) (buffer : Text) (sent : Sent)
    → Answered
        (check_auth token buffer)
        permitted
        buffer
        sent
        (client_request token permitted buffer sent)
unfolding client_request
client_request-Answered token permitted buffer sent =
    let A = Answered (check_auth token buffer) permitted buffer sent in
    let r = handle_process_signal token permitted buffer sent in
    if_both A (starts (codes "GET / ") buffer || starts (codes "GET /index.html") buffer)
      (λ e. quiet _)
      (λ e.
        if_both A (starts (codes "GET /style.css") buffer) (λ e. quiet _)
          (λ e.
            if_both A (starts (codes "GET /app.js") buffer) (λ e. quiet _)
              (λ e.
                if_both A (starts (codes "GET /api/metrics") buffer) (λ e. quiet _)
                  (λ e.
                    if_both A (starts signal_prefix buffer)
                      (λ e.
                        signalled r.0 r.1 e
                          (handle_process_signal-SentOne token permitted buffer sent))
                      (λ e. if_both A (known_method buffer) (λ e. quiet _) (λ e. quiet _))))))
