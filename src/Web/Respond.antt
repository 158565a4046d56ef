-- ===== src/Web/Respond.antt =====
-- `client_thread_worker` of src/monitor/gui_server.c, from what recv(2) gives to what is sent back.
use linux_dynamic_memory_all.Prelude.{ℕ, ◌≡◌, refl, Bool, Option, none, some, []}
use linux_dynamic_memory_all.Text.{Text, codes}
use linux_dynamic_memory_all.Signal.{Kill, Sent}
use linux_dynamic_memory_all.Web.Request.{
  Reply, unauthorized, missing_body, missing_pid, invalid_pid, invalid_signal, success, failed,
}
use linux_dynamic_memory_all.Web.Route.{
  Response, file, metrics, process_signal, not_found, method_not_allowed, client_request,
}
use linux_dynamic_memory_all.Web.Send.{
  Client, File, absent, no_stat, contents, serve_file, send_response,
}
use linux_dynamic_memory_all.Web.FileLaws.{
  Served, no_file, no_size, some_of, serve_file-Served, send_response-open_files,
}
use linux_dynamic_memory_all.Web.Metrics.{
  Format, View, view_of, Held, serve_metrics_json, c_string, cannot_serialize,
}
use linux_dynamic_memory_all.Web.MetricsLaws.{
  MetricsServed, metrics_text, sent_whole, not_serialized, no_memory,
  serve_metrics_json-MetricsServed,
}

abbrev pub send_json : Text → Text → Client → Client
send_json status body = send_response status (codes "application/json") body []

-- The status and the body of the response to a signal request.
abbrev pub reply_text : Reply → Text × Text
reply_text unauthorized = (codes "401 Unauthorized", codes "{\"error\": \"Unauthorized\"}")
reply_text missing_body = (codes "400 Bad Request", codes "{\"error\": \"Missing body\"}")
reply_text missing_pid = (codes "400 Bad Request", codes "{\"error\": \"Missing pid\"}")
reply_text invalid_pid = (codes "400 Bad Request", codes "{\"error\": \"Invalid target PID\"}")
reply_text invalid_signal = (codes "400 Bad Request", codes "{\"error\": \"Invalid signal name\"}")
reply_text success = (codes "200 OK", codes "{\"status\": \"success\"}")
reply_text failed = (
  codes "500 Internal Server Error",
  codes "{\"status\": \"error\", \"message\": \"Failed to dispatch signal\"}",
)

-- The server and the system as a client thread finds them.
pub record Site (F : Type 0) : Type 0 where
  pub token : Text
  pub snapshot : Option (View F)
  pub format : Format F
  pub files : Text → File
  pub gives : ℕ → Bool
  pub permitted : Kill → Bool

-- What a thread took for a response is given back.
pub record Released (c c' : Client) (held held' : Held) : Type 0 where
  pub files_closed : c'.open_files ≡ c.open_files
  pub unlocked : held' ≡ held

module _ {F : Type 0} (w : Site F) where
  unfoldable pub respond : Response → Client → Held → Client × Held
  unfolding serve_file serve_metrics_json send_response
  respond (file path content_type) c held = (serve_file w.files path content_type c, held)
  respond metrics c held = serve_metrics_json w.format w.gives w.snapshot c held
  respond (process_signal r) c held = (send_json (reply_text r).0 (reply_text r).1 c, held)
  respond not_found c held =
      (send_json (codes "404 Not Found") (codes "{\"error\": \"Route not found\"}") c, held)
  respond method_not_allowed c held = (
    send_json (codes "405 Method Not Allowed") (codes "{\"error\": \"Method not allowed\"}") c,
    held,
  )

  -- What was received up to its first zero byte; `none` if recv returned 0 or -1.
  unfoldable pub client_thread_worker : Option Text → Client → Held → Sent → (Client × Held) × Sent
  unfolding client_request respond
  client_thread_worker none c held sent = ((c, held), sent)
  client_thread_worker (some buffer) c held sent =
      let r = client_request w.token w.permitted buffer sent in (respond r.0 c held, r.1)

  -- The file is closed.
  Served-open_files :
      (content_type : Text) (c c' : Client) (f : File)
      → Served content_type c c' f
      → c'.open_files ≡ c.open_files
  Served-open_files content_type c c' absent (no_file o e) = o
  Served-open_files content_type c c' no_stat (no_size o e) = o
  Served-open_files content_type c c' (contents n ts) (some_of n' ts' g) = g.open_files

  send_json-open_files :
      (status body : Text) (c : Client) → (send_json status body c).open_files ≡ c.open_files
  send_json-open_files status body c =
      send_response-open_files status (codes "application/json") body [] c

  MetricsServed-Released :
      (v : View F) (c : Client) (h : Held) (r : Client × Held)
      → MetricsServed w.format v c h r
      → Released c r.0 h r.1
  MetricsServed-Released v c h _ sent_whole = record {
    files_closed =
        send_response-open_files (codes "200 OK") (codes "application/json")
          (c_string (metrics_text w.format v)) (codes "Cache-Control: no-store\r\n") c;
    unlocked = refl;
  }
  MetricsServed-Released v c h _ not_serialized = record {
    files_closed =
        send_response-open_files (codes "500 Internal Server Error") (codes "text/plain")
          cannot_serialize [] c;
    unlocked = refl;
  }
  MetricsServed-Released v c h _ no_memory = record {
    files_closed =
        send_response-open_files (codes "500 Internal Server Error") (codes "text/plain")
          (codes "Out of Memory") [] c;
    unlocked = refl;
  }

  respond-Released :
      (r : Response) (c : Client) (held : Held)
      → Released c (respond r c held).0 held (respond r c held).1
  unfolding respond
  respond-Released (file path content_type) c held = record {
    files_closed =
        Served-open_files content_type c (serve_file w.files path content_type c) (w.files path)
          (serve_file-Served w.files path content_type c);
    unlocked = refl;
  }
  respond-Released metrics c held =
      MetricsServed-Released (view_of w.format w.snapshot) c held _
        (serve_metrics_json-MetricsServed w.format w.gives w.snapshot c held)
  respond-Released (process_signal r) c held = record {
    files_closed = send_json-open_files (reply_text r).0 (reply_text r).1 c;
    unlocked = refl;
  }
  respond-Released not_found c held = record {
    files_closed =
        send_json-open_files (codes "404 Not Found") (codes "{\"error\": \"Route not found\"}") c;
    unlocked = refl;
  }
  respond-Released method_not_allowed c held = record {
    files_closed =
        send_json-open_files (codes "405 Method Not Allowed")
          (codes "{\"error\": \"Method not allowed\"}") c;
    unlocked = refl;
  }

  -- Whatever is received, and whichever calls of send, open, fstat, read and malloc fail,
  -- client_thread_worker has closed each file that it opened, and has released the lock and the
  -- buffer of the metrics.
  pub client_thread_worker-Released :
      (buffer : Option Text) (c : Client) (held : Held) (sent : Sent)
      → Released c
          (client_thread_worker buffer c held sent).0.0
          held
          (client_thread_worker buffer c held sent).0.1
  unfolding client_thread_worker
  client_thread_worker-Released none c held sent = record { files_closed = refl; unlocked = refl }
  client_thread_worker-Released (some buffer) c held sent =
      respond-Released (client_request w.token w.permitted buffer sent).0 c held
