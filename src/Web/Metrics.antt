-- ===== src/Web/Metrics.antt =====
-- `serve_metrics_json` and `gui_server_update_snapshot` of src/monitor/gui_server.c. `%.2f` of a
-- float, `%d` and `%ld` of a number that may be negative, and whether memory of a size is given, are
-- parameters.
use linux_dynamic_memory_all.Prelude.{
  ℕ, ◌+◌, ◌-◌, ◌*◌, Bool, true, false, not, Option, none, some, List, [], ◌∷◌, ◌++◌,
}
use linux_dynamic_memory_all.Prelude.Tests.{ltb, leb, ◌==◌, if◌then◌else◌}
use linux_dynamic_memory_all.Prelude.Lists.{length}
use linux_dynamic_memory_all.Text.{Text, codes, take}
use linux_dynamic_memory_all.Text.Number.{ℤ, pos, decimal}
use linux_dynamic_memory_all.Proc.ReadProcess.{max_comm_len}
use linux_dynamic_memory_all.Web.Escape.{escape_json_string}
use linux_dynamic_memory_all.Web.Send.{Client, send_response}

-- INITIAL_JSON_CAP.
abbrev pub initial_json_cap : ℕ
initial_json_cap = 64 * 1024

-- How printf writes what the model leaves open.
pub record Format (F : Type 0) : Type 0 where
  pub fixed2 : F → Text
  pub signed : ℤ → Text
  pub zero_float : F

-- The fields of a process that are served.
pub record Row (F : Type 0) : Type 0 where
  pub pid : ℤ
  pub comm : Text
  pub state : ℕ
  pub cpu_usage_pct : F
  pub vm_rss_kb : ℕ
  pub num_threads : ℤ

-- The fields of `system_snapshot_t` that are served.
pub record View (F : Type 0) : Type 0 where
  pub timestamp : ℤ
  pub truncated : Bool
  pub total_usage_pct : F
  pub user_pct : F
  pub system_pct : F
  pub idle_pct : F
  pub core_count : ℤ
  pub mem_total_kb : ℕ
  pub mem_available_kb : ℕ
  pub mem_free_kb : ℕ
  pub buffers_kb : ℕ
  pub cached_kb : ℕ
  pub mem_usage_pct : F
  pub swap_total_kb : ℕ
  pub swap_free_kb : ℕ
  pub swap_usage_pct : F
  pub procs : List (Row F)

-- A key and its value, and the text before and after a value.
abbrev pub around : Text → Text → Text → Text
around before value rest = before ++ (value ++ rest)

-- What the thread holds: read locks of `snapshot_lock`, and buffers.
pub record Held : Type 0 where
  pub readers : ℕ
  pub buffers : ℕ

abbrev pub rdlock : Held → Held
rdlock h = record h { readers = h.readers + 1 }

abbrev pub unlock : Held → Held
unlock h = record h { readers = h.readers - 1 }

abbrev pub malloc_json : Held → Held
malloc_json h = record h { buffers = h.buffers + 1 }

abbrev pub free_json : Held → Held
free_json h = record h { buffers = h.buffers - 1 }

abbrev pub server_error : Text → Client → Client
server_error message c =
    send_response (codes "500 Internal Server Error") (codes "text/plain") message [] c

abbrev pub cannot_serialize : Text
cannot_serialize = codes "Unable to serialize metrics"

-- The bytes before the first zero byte, which are what `strlen` counts.
unfoldable pub c_string : Text → Text
c_string [] = []
c_string (x ∷ t) = let rest = c_string t in if x == 0 then [] else x ∷ rest

-- How the loop over the processes ends: the function has returned, or the capacity and the text.
pub data Rows : Type 0 where
  returned : Client × Held → Rows
  rows_written : ℕ → Text → Rows

module _ {F : Type 0} (f : Format F) where
  unfoldable pub mem_text : View F → Text
  unfolding decimal
  mem_text v = around (codes "  \"mem\": {\"mem_total_kb\": ") (decimal v.mem_total_kb) (
      around (codes ", \"mem_available_kb\": ") (decimal v.mem_available_kb) (
        around (codes ", \"mem_free_kb\": ") (decimal v.mem_free_kb) (
          around (codes ", \"buffers_kb\": ") (decimal v.buffers_kb) (
            around (codes ", \"cached_kb\": ") (decimal v.cached_kb) (
              around (codes ", \"mem_usage_pct\": ") (f.fixed2 v.mem_usage_pct) (
                around (codes ", \"swap_total_kb\": ") (decimal v.swap_total_kb) (
                  around (codes ", \"swap_free_kb\": ") (decimal v.swap_free_kb) (
                    around (codes ", \"swap_usage_pct\": ") (f.fixed2 v.swap_usage_pct)
                      (codes "},\n  \"processes\": [\n")))))))))

  -- What is printed for the numbers of the system.
  unfoldable pub head_text : View F → Text
  unfolding decimal mem_text
  head_text v = around (codes "{\n  \"timestamp\": ") (f.signed v.timestamp) (
      around (codes ",\n  \"truncated\": ") (if v.truncated then codes "true" else codes "false") (
        around (codes ",\n  \"cpu\": {\"total_usage_pct\": ") (f.fixed2 v.total_usage_pct) (
          around (codes ", \"user_pct\": ") (f.fixed2 v.user_pct) (
            around (codes ", \"system_pct\": ") (f.fixed2 v.system_pct) (
              around (codes ", \"idle_pct\": ") (f.fixed2 v.idle_pct) (
                around (codes ", \"core_count\": ") (f.signed v.core_count)
                  (codes "},\n" ++ mem_text v)))))))

  -- What is printed for a process, the last one without a comma.
  unfoldable pub row_text : Row F → Bool → Text
  unfolding decimal escape_json_string
  row_text p is_last = around (codes "    {\"pid\": ") (f.signed p.pid) (
      around (codes ", \"comm\": \"") (escape_json_string p.comm (max_comm_len * 4)) (
        around (codes "\", \"state\": \"") (p.state ∷ []) (
          around (codes "\", \"cpu_pct\": ") (f.fixed2 p.cpu_usage_pct) (
            around (codes ", \"mem_rss_kb\": ") (decimal p.vm_rss_kb) (
              around (codes ", \"threads\": ") (f.signed p.num_threads)
                (codes "}" ++ ((if is_last then [] else codes ",") ++ codes "\n")))))))

  -- What is served before there is a snapshot.
  abbrev pub no_snapshot : View F
  no_snapshot = record {
    timestamp = pos 0;
    truncated = false;
    total_usage_pct = f.zero_float;
    user_pct = f.zero_float;
    system_pct = f.zero_float;
    idle_pct = f.zero_float;
    core_count = pos 0;
    mem_total_kb = 0;
    mem_available_kb = 0;
    mem_free_kb = 0;
    buffers_kb = 0;
    cached_kb = 0;
    mem_usage_pct = f.zero_float;
    swap_total_kb = 0;
    swap_free_kb = 0;
    swap_usage_pct = f.zero_float;
    procs = [];
  }

  abbrev pub view_of : Option (View F) → View F
  view_of none = no_snapshot
  view_of (some v) = v

  -- `snprintf` behind what is in the buffer of `cap` bytes; `none` if it does not fit with its zero.
  abbrev pub put : ℕ → Text → Text → Option Text
  put cap json t = if leb (cap - length json) (length t) then none else some (json ++ t)

  -- The buffer is enlarged to `new_cap` if fewer than `spare` bytes are left.
  abbrev pub make_room : (ℕ → Bool) → ℕ → ℕ → ℕ → ℕ → Option ℕ
  make_room gives cap offset spare new_cap =
      if ltb cap (offset + spare) then if gives new_cap then some new_cap else none else some cap

  abbrev pub is_empty : List (Row F) → Bool
  is_empty [] = true
  is_empty (p ∷ ps) = false

  -- The loop over the processes; each of the two errors unlocks, frees and returns.
  unfoldable pub write_rows : (ℕ → Bool) → ℕ → Text → List (Row F) → Client → Held → Rows
  unfolding row_text send_response
  write_rows gives cap json [] c h = rows_written cap json
  write_rows gives cap json (p ∷ ps) c h = elim (make_room gives cap (length json) 1024 (cap * 2)) [
    | none ↦ returned (server_error cannot_serialize c, free_json (unlock h))
    | some cap' ↦ elim (put cap' json (row_text p (is_empty ps))) [
      | none ↦ returned (server_error cannot_serialize c, free_json (unlock h))
      | some json' ↦ write_rows gives cap' json' ps c h
    ]
  ]

  abbrev pub tail_text : Text
  tail_text = codes "  ]\n}\n"

  -- From the enlarging for the end on; the last `snprintf` cuts what does not fit.
  unfoldable pub end_json : (ℕ → Bool) → ℕ → Text → Client → Held → Client × Held
  unfolding send_response c_string
  end_json gives cap json c h = elim (make_room gives cap (length json) 32 (cap + 1024)) [
    | none ↦ (server_error cannot_serialize c, free_json h)
    | some cap' ↦ (
      send_response (codes "200 OK") (codes "application/json")
          (c_string (json ++ take (cap' - length json - 1) tail_text))
          (codes "Cache-Control: no-store\r\n") c,
      free_json h,
    )
  ]

  -- After the loop the lock is released.
  abbrev pub after_rows : (ℕ → Bool) → Rows → Client → Held → Client × Held
  after_rows gives (returned r) c h = r
  after_rows gives (rows_written cap json) c h = end_json gives cap json c (unlock h)

  -- With the lock and the buffer.
  unfoldable pub write_json : (ℕ → Bool) → View F → Client → Held → Client × Held
  unfolding head_text write_rows end_json send_response
  write_json gives v c h = elim (put initial_json_cap [] (head_text v)) [
    | none ↦ (server_error cannot_serialize c, free_json (unlock h))
    | some json ↦ after_rows gives (write_rows gives initial_json_cap json v.procs c h) c h
  ]

unfoldable pub serve_metrics_json :
    {F : Type 0} → Format F → (ℕ → Bool) → Option (View F) → Client → Held → Client × Held
unfolding write_json send_response
serve_metrics_json f gives snap c h =
    if not (gives initial_json_cap)
    then (server_error (codes "Out of Memory") c, unlock (rdlock h))
    else write_json f gives (view_of f snap) c (malloc_json (rdlock h))

-- The snapshot is copied if there is a server, a snapshot and a place for it.
unfoldable pub gui_server_update_snapshot :
    {A : Type 0} → Bool → (snapshot latest : Option A) → Option A
gui_server_update_snapshot has_server none latest = latest
gui_server_update_snapshot has_server (some s) none = none
gui_server_update_snapshot has_server (some s) (some old) = if has_server then some s else some old
