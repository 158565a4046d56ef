-- ===== src/Web/ResponseTests.antt =====
-- What a client receives, on small inputs.
use linux_dynamic_memory_all.Prelude.{
  ℕ, zero, suc, ◌≡◌, refl, true, some, List, [], ◌∷◌, ◌++◌, arith,
}
use linux_dynamic_memory_all.Prelude.Tests.{◌==◌}
use linux_dynamic_memory_all.Prelude.Lists.{length}
use linux_dynamic_memory_all.Text.{Text, codes}
use linux_dynamic_memory_all.Text.Number.{pos, decimal, decimal_from}
use linux_dynamic_memory_all.Signal.{Sent}
use linux_dynamic_memory_all.Web.Escape.{escape_json_string, escape_from}
use linux_dynamic_memory_all.Web.Send.{Sending, taken, again, Client, File, contents, send_response}
use linux_dynamic_memory_all.Web.ResponseLaws.{
  read_head, response_lines, join_lines, read_head-send_response,
}
use linux_dynamic_memory_all.Web.Metrics.{
  Format, View, no_snapshot, Held, serve_metrics_json, head_text, mem_text, row_text,
}
use linux_dynamic_memory_all.Web.MetricsLaws.{
  MetricsServed, serve_metrics_json-MetricsServed, serve_metrics_json-whole_response,
  whole_response,
}
use linux_dynamic_memory_all.Web.Respond.{
  Site, Released, client_thread_worker, client_thread_worker-Released,
}

abbrev repeat : ℕ → List Sending
repeat zero = []
repeat (suc n) = taken 1 ∷ again ∷ repeat n

-- A connection that takes one byte at a time.
abbrev slow : Client
slow = record { results = repeat 130; received = []; open_files = 0 }

read_head-send_response_example :
    (message : Text) × ((send_response
        (codes "200 OK")
        (codes "text/plain")
        (codes "hi")
        (join_lines (codes "Cache-Control: no-store" ∷ []))
        slow).received
      ≡ slow.received ++ message)
    × (read_head [] message
        ≡ some (
          response_lines
              (codes "200 OK")
              (codes "text/plain")
              (length (codes "hi"))
              (codes "Cache-Control: no-store" ∷ []),
          codes "hi",
        ))
unfolding decimal
read_head-send_response_example =
    read_head-send_response (codes "200 OK") (codes "text/plain") (codes "hi")
      (codes "Cache-Control: no-store" ∷ []) slow refl refl refl (ground arith) refl (ground arith)

-- A float is a number here.
abbrev numbers : Format ℕ
numbers = record { fixed2 = decimal; signed = λ z. codes "0"; zero_float = 0 }

abbrev one_process : View ℕ
one_process = record (no_snapshot numbers) {
  procs =
      record {
        pid = pos 7;
        comm = codes "a\"b";
        state = 83;
        cpu_usage_pct = 3;
        vm_rss_kb = 100;
        num_threads = pos 1;
      }
      ∷ [];
}

abbrev none_held : Held
none_held = record { readers = 0; buffers = 0 }

serve_metrics_json-MetricsServed_example :
    MetricsServed numbers one_process slow none_held
      (serve_metrics_json numbers (λ n. n == 65536) (some one_process) slow none_held)
serve_metrics_json-MetricsServed_example =
    serve_metrics_json-MetricsServed numbers (λ n. n == 65536) (some one_process) slow none_held

serve_metrics_json-whole_response_example :
    (serve_metrics_json numbers (λ n. true) (some one_process) slow none_held).0
    ≡ whole_response numbers one_process slow
unfolding head_text mem_text row_text decimal decimal_from escape_json_string escape_from
serve_metrics_json-whole_response_example =
    serve_metrics_json-whole_response numbers (λ n. true) (some one_process) slow none_held
      (λ n. refl) (ground arith) (ground arith, tt)

abbrev files : Text → File
files path = contents 5 (codes "abc" ∷ codes "de" ∷ [])

abbrev site : Site ℕ
site = record {
  token = codes "secret";
  snapshot = some one_process;
  format = numbers;
  files = files;
  gives = λ n. true;
  permitted = λ k. true;
}

abbrev nothing_sent : Sent
nothing_sent = []

client_thread_worker-Released_example :
    Released slow
      (client_thread_worker site (some (codes "GET / HTTP/1.1")) slow none_held nothing_sent).0.0
      none_held
      (client_thread_worker site (some (codes "GET / HTTP/1.1")) slow none_held nothing_sent).0.1
client_thread_worker-Released_example =
    client_thread_worker-Released site (some (codes "GET / HTTP/1.1")) slow none_held nothing_sent
