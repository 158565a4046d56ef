-- ===== src/Web/Send.antt =====
-- `send_all`, `send_response` and `serve_file` of src/monitor/gui_server.c. What the calls of
-- send(2) return, and what open, fstat and read find, are parameters.
use linux_dynamic_memory_all.Prelude.{ℕ, ◌+◌, ◌-◌, Bool, true, false, List, [], ◌∷◌, ◌++◌}
use linux_dynamic_memory_all.Prelude.Tests.{ltb, leb, ◌==◌, if◌then◌else◌}
use linux_dynamic_memory_all.Prelude.Lists.{length}
use linux_dynamic_memory_all.Text.{Text, codes, take, drop}
use linux_dynamic_memory_all.Text.Number.{decimal}
use linux_dynamic_memory_all.Web.Auth.{crlf}

-- What a call of send returns: the number of bytes taken, -1 with EINTR, EAGAIN or EWOULDBLOCK, or
-- -1 with another error.
pub data Sending : Type 0 where
  taken : ℕ → Sending
  again : Sending
  broken : Sending

-- A client's connection: what the calls of send will return, one after another, where each call
-- after them fails; what the client has received; and the files that are open for it.
pub record Client : Type 0 where
  pub results : List Sending
  pub received : Text
  pub open_files : ℕ

-- How `send_all` ends: whether it returns 0, what has been sent, and the results left.
pub record Delivery : Type 0 where
  pub done : Bool
  pub bytes : Text
  pub left : List Sending

-- The `while` loop; the text is what is left to send.
unfoldable pub send_all : List Sending → Text → Delivery
send_all rs [] = record { done = true; bytes = []; left = rs }
send_all [] (c ∷ t) = record { done = false; bytes = []; left = [] }
send_all (again ∷ rs) (c ∷ t) = send_all rs (c ∷ t)
send_all (broken ∷ rs) (c ∷ t) = record { done = false; bytes = []; left = rs }
send_all (taken n ∷ rs) (c ∷ t) =
    let rest = send_all rs (drop n (c ∷ t)) in
    if n == 0
    then record { done = false; bytes = []; left = rs }
    else record { done = rest.done; bytes = take n (c ∷ t) ++ rest.bytes; left = rest.left }

-- The call of `send_all` on the connection.
unfoldable pub call_send_all : Text → Client → Bool × Client
unfolding send_all
call_send_all t c =
    let d = send_all c.results t in
    (d.done, record c { results = d.left; received = c.received ++ d.bytes })

-- The header of `send_response`.
abbrev pub response_header : Text → Text → ℕ → Text → Text
response_header status content_type body_len extra_headers =
    codes "HTTP/1.1 "
    ++ (status
        ++ (crlf
            ++ (codes "Content-Type: "
                ++ (content_type
                    ++ (crlf
                        ++ (codes "Content-Length: "
                            ++ (decimal body_len
                                ++ (crlf
                                    ++ (codes "Connection: close"
                                        ++ (crlf ++ (extra_headers ++ crlf)))))))))))

-- `extra_headers` is empty for NULL. `snprintf` cuts a header that does not fit, and then nothing is
-- sent.
unfoldable pub send_response : Text → Text → Text → Text → Client → Client
unfolding call_send_all decimal
send_response status content_type body extra_headers c =
    let header = response_header status content_type (length body) extra_headers in
    let c' = (call_send_all header c).1 in
    if leb 1024 (length header)
    then c
    else if ltb 0 (length body)
    then (call_send_all body c').1
    else c'

-- What is at a path: nothing that can be opened, a file that fstat fails on, or a file with its
-- size and what the calls of read return until one returns 0 or -1.
pub data File : Type 0 where
  absent : File
  no_stat : File
  contents : ℕ → List Text → File

abbrev pub file_header : Text → ℕ → Text
file_header content_type size =
    codes "HTTP/1.1 200 OK"
    ++ (crlf
        ++ (codes "Content-Type: "
            ++ (content_type
                ++ (crlf
                    ++ (codes "Content-Length: "
                        ++ (decimal size
                            ++ (crlf
                                ++ (codes "Connection: close"
                                    ++ (crlf
                                        ++ (codes "X-Content-Type-Options: nosniff"
                                            ++ (crlf
                                                ++ (codes "X-Frame-Options: DENY"
                                                    ++ (crlf
                                                        ++ (codes "Referrer-Policy: no-referrer"
                                                            ++ (crlf
                                                            ++ (codes "Cache-Control: no-store"
                                                            ++ (crlf
                                                            ++ (codes
                                                            "Content-Security-Policy: default-src 'self'; object-src 'none'; base-uri 'self'; frame-ancestors 'none'; script-src 'self'; style-src 'self' 'unsafe-inline'; connect-src 'self'"
                                                            ++ (crlf ++ crlf)))))))))))))))))))

-- The loop of `read` and `send_all`; a chunk is not empty.
unfoldable pub send_chunks : List Text → Client → Client
unfolding call_send_all
send_chunks [] c = c
send_chunks (chunk ∷ chunks) c =
    let r = call_send_all chunk c in let rest = send_chunks chunks r.1 in if r.0 then rest else r.1

abbrev add_file : Client → Client
add_file c = record c { open_files = c.open_files + 1 }

abbrev drop_file : Client → Client
drop_file c = record c { open_files = c.open_files - 1 }

-- The header of the file and its chunks.
unfoldable pub send_file : Text → ℕ → List Text → Client → Client
unfolding call_send_all send_chunks decimal
send_file content_type size chunks c =
    let header = file_header content_type size in
    let r = call_send_all header c in
    let rest = send_chunks chunks r.1 in
    if leb 512 (length header) then c else if r.0 then rest else r.1

-- What is found when the path is opened.
unfoldable pub serve : File → Text → Client → Client
unfolding send_response send_file
serve absent content_type c =
    send_response (codes "404 Not Found") (codes "text/plain") (codes "404 Not Found") [] c
serve no_stat content_type c =
    send_response (codes "500 Internal Server Error") (codes "text/plain")
      (codes "500 Internal Error") [] (drop_file (add_file c))
serve (contents size chunks) content_type c =
    drop_file (send_file content_type size chunks (add_file c))

unfoldable pub serve_file : (Text → File) → Text → Text → Client → Client
unfolding serve
serve_file files filepath content_type c = serve (files filepath) content_type c
