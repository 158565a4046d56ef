-- ===== src/Web/FileLaws.antt =====
-- What a client receives of a file by `serve_file` of src/monitor/gui_server.c.
use linux_dynamic_memory_all.Prelude.{
  ℕ, ◌+◌, ◌-◌, ◌≡◌, refl, ap, sym, ◌∙◌, List, [], ◌∷◌, ◌++◌, arith, inl, inr,
}
use linux_dynamic_memory_all.Prelude.Tests.{ltb, leb, if◌then◌else◌, Bool-cases, if_both}
use linux_dynamic_memory_all.Prelude.Lists.{length}
use linux_dynamic_memory_all.Text.{Text, codes}
use linux_dynamic_memory_all.Text.Laws.{append_assoc, append_nil}
use linux_dynamic_memory_all.Web.Send.{
  Client, Delivery, send_all, call_send_all, response_header, send_response, file_header, serve,
  send_chunks, send_file, serve_file, File, absent, no_stat, contents,
}
use linux_dynamic_memory_all.Web.SendLaws.{Delivered, whole, cut, send_all-Delivered}

abbrev pub concat : List Text → Text
concat [] = []
concat (t ∷ ts) = t ++ concat ts

-- The client has received more: the text without `missing`, its end. The open files are as before.
pub record Got (t : Text) (c c' : Client) : Type 0 where
  pub message : Text
  pub missing : Text
  pub received : c'.received ≡ c.received ++ message
  pub text : message ++ missing ≡ t
  pub open_files : c'.open_files ≡ c.open_files

none_received : (t : Text) (c : Client) → Got t c c
none_received t c = record {
  message = [];
  missing = t;
  received = sym (append_nil c.received);
  text = refl;
  open_files = refl;
}

-- A first text was received whole, and then some of a second.
received_after :
    (t u : Text) (c c1 c2 : Client)
    → c1.received ≡ c.received ++ t
    → c1.open_files ≡ c.open_files
    → Got u c1 c2
    → Got (t ++ u) c c2
received_after t u c c1 c2 e o g = record {
  message = t ++ g.message;
  missing = g.missing;
  received = g.received ∙ ap (λ (x : Text). x ++ g.message) e ∙ append_assoc c.received t g.message;
  text = append_assoc t g.message g.missing ∙ ap (λ (x : Text). t ++ x) g.text;
  open_files = g.open_files ∙ o;
}

-- A text and, if it was received whole, what follows.
and_more :
    (t u : Text) (c c2 : Client) (d : Delivery)
    → Delivered t d
    → Got u (record c { results = d.left; received = c.received ++ d.bytes }) c2
    → Got
        (t ++ u)
        c
        (if d.done then c2 else record c { results = d.left; received = c.received ++ d.bytes })
and_more t u c c2 d (whole e b) g = rw e (
    received_after t u c (record c { results = d.left; received = c.received ++ d.bytes }) c2
      (ap (λ (x : Text). c.received ++ x) b) refl g)
and_more t u c c2 d (cut v e pos b) g = rw e (record {
  message = d.bytes;
  missing = v ++ u;
  received = refl;
  text = sym (append_assoc d.bytes v u) ∙ ap (λ (x : Text). x ++ u) b;
  open_files = refl;
})

send_chunks-Got : (chunks : List Text) (c : Client) → Got (concat chunks) c (send_chunks chunks c)
unfolding send_chunks call_send_all
send_chunks-Got [] c = none_received [] c
send_chunks-Got (chunk ∷ chunks) c =
    let d = send_all c.results chunk in
    let c1 : Client = record c { results = d.left; received = c.received ++ d.bytes } in
    and_more chunk (concat chunks) c (send_chunks chunks c1) d (send_all-Delivered c.results chunk)
      (send_chunks-Got chunks c1)

send_file-Got :
    (content_type : Text) (size : ℕ) (chunks : List Text) (c : Client)
    → Got (file_header content_type size ++ concat chunks) c (send_file content_type size chunks c)
unfolding send_file call_send_all
send_file-Got content_type size chunks c =
    let header = file_header content_type size in
    let d = send_all c.results header in
    let c1 : Client = record c { results = d.left; received = c.received ++ d.bytes } in
    elim (Bool-cases (leb 512 (length header))) [
      | inl e ↦ rw e (none_received (header ++ concat chunks) c)
      | inr e ↦ rw e (
          and_more header (concat chunks) c (send_chunks chunks c1) d
            (send_all-Delivered c.results header) (send_chunks-Got chunks c1))
    ]

pub send_response-open_files :
    (status content_type body extra : Text) (c : Client)
    → (send_response status content_type body extra c).open_files ≡ c.open_files
unfolding send_response call_send_all
send_response-open_files status content_type body extra c =
    let P = λ (c' : Client). c'.open_files ≡ c.open_files in
    if_both P (leb 1024 (length (response_header status content_type (length body) extra)))
      (λ e. refl) (λ e. if_both P (ltb 0 (length body)) (λ e. refl) (λ e. refl))

-- What is at the path, and the connection after the file is served.
pub data Served (content_type : Text) (c c' : Client) : File → Type 0 where
  no_file :
      c'.open_files ≡ c.open_files
      → c' ≡ send_response (codes "404 Not Found") (codes "text/plain") (codes "404 Not Found") [] c
      → Served content_type c c' absent
  no_size :
      c'.open_files ≡ c.open_files
      → c'.received
        ≡ (send_response
            (codes "500 Internal Server Error")
            (codes "text/plain")
            (codes "500 Internal Error")
            []
            c).received
      → Served content_type c c' no_stat
  some_of :
      (size : ℕ) (chunks : List Text)
      → Got (file_header content_type size ++ concat chunks) c c'
      → Served content_type c c' (contents size chunks)

serve-Served :
    (f : File) (content_type : Text) (c : Client) → Served content_type c (serve f content_type c) f
unfolding serve
serve-Served absent content_type c =
    no_file
      (send_response-open_files (codes "404 Not Found") (codes "text/plain") (codes "404 Not Found")
        [] c)
      refl
serve-Served no_stat content_type c =
    let e : c.open_files + 1 - 1 ≡ c.open_files = omega arith in
    no_size
      (send_response-open_files (codes "500 Internal Server Error") (codes "text/plain")
          (codes "500 Internal Error") [] (record c { open_files = c.open_files + 1 - 1 })
        ∙ e)
      (ap
        (λ (n : ℕ).
          (send_response (codes "500 Internal Server Error") (codes "text/plain")
            (codes "500 Internal Error") [] (record c { open_files = n })).received)
        e)
serve-Served (contents size chunks) content_type c =
    let g = send_file-Got content_type size chunks (record c { open_files = c.open_files + 1 }) in
    let o = g.open_files in
    some_of size chunks (record {
      message = g.message;
      missing = g.missing;
      received = g.received;
      text = g.text;
      open_files = ap (λ (n : ℕ). n - 1) o ∙ omega arith;
    })

--
pub serve_file-Served :
    (files : Text → File) (filepath content_type : Text) (c : Client)
    → Served content_type c (serve_file files filepath content_type c) (files filepath)
unfolding serve_file
serve_file-Served files filepath content_type c = serve-Served (files filepath) content_type c
