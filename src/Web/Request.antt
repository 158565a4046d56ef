-- ===== src/Web/Request.antt =====
-- `handle_process_signal` of src/monitor/gui_server.c.
use linux_dynamic_memory_all.Prelude.{ℕ, ◌+◌, Bool, not, ◌||◌, Option, none, some, [], ◌∷◌}
use linux_dynamic_memory_all.Prelude.Tests.{◌==◌, if◌then◌else◌}
use linux_dynamic_memory_all.Prelude.Lists.{length}
use linux_dynamic_memory_all.Text.{Text, codes, find, drop}
use linux_dynamic_memory_all.Text.Number.{ℤ, leℤ, ltℤ, strtol, whole}
use linux_dynamic_memory_all.Signal.{Kill, Sent, signal_send_to_process, signal_parse_name}
use linux_dynamic_memory_all.Web.Auth.{blank_line, check_auth}
use linux_dynamic_memory_all.Web.Field.{parse_json_field}

-- The responses, by their status and message.
pub data Reply : Type 0 where
  unauthorized : Reply
  missing_body : Reply
  missing_pid : Reply
  invalid_pid : Reply
  invalid_signal : Reply
  success : Reply
  failed : Reply

abbrev pub max_pid : ℕ
max_pid = 4194304

-- The signal is sent.
unfoldable pub dispatch : (Kill → Bool) → ℤ → Option ℕ → Sent → Reply × Sent
unfolding signal_send_to_process
dispatch permitted pid none sent = (invalid_signal, sent)
dispatch permitted pid (some sig) sent =
    let r = signal_send_to_process permitted pid sig sent in (if r.0 then success else failed, r.1)

abbrev pub or_sigterm : Text → Text
or_sigterm [] = codes "SIGTERM"
or_sigterm (c ∷ t) = c ∷ t

-- The part behind the search for the body.
unfoldable pub handle_body : (Kill → Bool) → Text → Sent → Reply × Sent
unfolding dispatch
handle_body permitted body sent =
    let pid_str = parse_json_field body (codes "pid") 32 in
    let sig_str = parse_json_field body (codes "signal") 32 in
    let pid = strtol pid_str in
    if length pid_str == 0
    then (missing_pid, sent)
    else if not (whole pid) || leℤ pid.value 1 || ltℤ max_pid pid.value
    then (invalid_pid, sent)
    else dispatch permitted pid.value (signal_parse_name (or_sigterm sig_str)) sent

unfoldable pub handle_process_signal : Text → (Kill → Bool) → Text → Sent → Reply × Sent
unfolding handle_body
handle_process_signal token permitted buffer sent =
    if not (check_auth token buffer) then (unauthorized, sent) else elim (find blank_line buffer) [
      | none ↦ (missing_body, sent)
      | some n ↦ handle_body permitted (drop (n + 4) buffer) sent
    ]
