-- ===== src/Web/MetricsLaws.antt =====
-- `serve_metrics_json` of src/monitor/gui_server.c gives send_response the whole text or an error message.
use mathlib.Core.Path.{subst}
use linux_dynamic_memory_all.Prelude.{
  ℕ, ◌+◌, ◌-◌, ◌*◌, ◌≡◌, ◌≤◌, ◌<◌, refl, sym, Bool, true, false, Option, some, List, [], ◌∷◌, ◌++◌,
  arith, inl, inr,
}
use linux_dynamic_memory_all.Prelude.Tests.{leb, Bool-cases, option_view}
use linux_dynamic_memory_all.Prelude.Lists.{length}
use linux_dynamic_memory_all.Text.{Text, codes, take}
use linux_dynamic_memory_all.Text.Laws.{take_all, append_assoc, append_nil, length-append}
use linux_dynamic_memory_all.Web.Send.{Client, send_response}
use linux_dynamic_memory_all.Web.Metrics.{
  initial_json_cap, Format, Row, View, head_text, row_text, view_of, make_room, is_empty,
  write_rows, tail_text, end_json, write_json, Held, server_error, serve_metrics_json, rdlock,
  unlock, malloc_json, free_json, cannot_serialize, c_string, Rows, returned, rows_written,
  after_rows,
}

module _ {F : Type 0} (f : Format F) where
  -- The texts of the processes, one after another.
  abbrev pub rows_text : List (Row F) → Text
  rows_text [] = []
  rows_text (p ∷ ps) = row_text f p (is_empty f ps) ++ rows_text ps

  -- The whole text.
  abbrev pub metrics_text : View F → Text
  metrics_text v = head_text f v ++ (rows_text v.procs ++ tail_text f)

  -- The whole text is handed to send_response.
  abbrev pub whole_response : View F → Client → Client
  whole_response v c =
      send_response (codes "200 OK") (codes "application/json") (c_string (metrics_text v))
        (codes "Cache-Control: no-store\r\n") c

  -- What is sent, and what is held at the end.
  pub data MetricsServed (v : View F) (c : Client) (h : Held) : Client × Held → Type 0 where
    sent_whole : MetricsServed v c h (whole_response v c, h)
    not_serialized : MetricsServed v c h (server_error cannot_serialize c, h)
    no_memory : MetricsServed v c h (server_error (codes "Out of Memory") c, h)

  -- What comes of the loop, where `t` is the text with all processes.
  data WroteRows (t : Text) (c : Client) (h : Held) : Rows → Type 0 where
    gave_up : WroteRows t c h (returned (server_error cannot_serialize c, free_json (unlock h)))
    wrote :
        (cap : ℕ) (json : Text)
        → json ≡ t
        → length json < cap
        → WroteRows t c h (rows_written cap json)

  module _ (gives : ℕ → Bool) (c : Client) (h : Held) where
    write_rows-WroteRows :
        (cap : ℕ) (json : Text) (ps : List (Row F))
        → length json < cap
        → WroteRows (json ++ rows_text ps) c h (write_rows f gives cap json ps c h)
    unfolding write_rows
    write_rows-WroteRows cap json [] lt = wrote cap json (sym (append_nil json)) lt
    write_rows-WroteRows cap json (p ∷ ps) lt =
        elim (option_view (make_room f gives cap (length json) 1024 (cap * 2))) [
          | inl e ↦ rw (write_rows, e) gave_up
          | inr (cap', e) ↦
              let t = row_text f p (is_empty f ps) in
              elim (Bool-cases (leb (cap' - length json) (length t))) [
                | inl g ↦ rw (write_rows, e, g) gave_up
                | inr g ↦
                    let k = append_assoc json t (rows_text ps) in
                    let fits : length (json ++ t) < cap' = ground (arith, length-append json t) in
                    let r = write_rows-WroteRows cap' (json ++ t) ps fits in
                    rw (write_rows, e, g)
                      (subst
                        (λ (u : Text). WroteRows u c h (write_rows f gives cap' (json ++ t) ps c h))
                        k r)
              ]
        ]

    end_json-MetricsServed :
        (v : View F) (k : Held) (cap : ℕ) (json : Text)
        → length json < cap
        → json ++ tail_text f ≡ metrics_text v
        → MetricsServed v c (free_json k) (end_json f gives cap json c k)
    unfolding end_json
    end_json-MetricsServed v k cap json lt q =
        elim (option_view (make_room f gives cap (length json) 32 (cap + 1024))) [
          | inl e ↦ rw (end_json, e) not_serialized
          | inr (cap', e) ↦
              let l : length json + 32 ≤ cap' = ground arith in
              let w : take (cap' - length json - 1) (tail_text f) ≡ tail_text f =
                take_all (cap' - length json - 1) (tail_text f) (ground arith) in
              rw (end_json, e, w, q) sent_whole
        ]

    after_rows-MetricsServed :
        (v : View F) (t : Text) (r : Rows)
        → t ++ tail_text f ≡ metrics_text v
        → WroteRows t c h r
        → MetricsServed v c (free_json (unlock h)) (after_rows f gives r c h)
    after_rows-MetricsServed v t r q gave_up = not_serialized
    after_rows-MetricsServed v t r q (wrote cap json e lt) =
        end_json-MetricsServed v (unlock h) cap json lt (rw e q)

    write_json-MetricsServed :
        (v : View F) → MetricsServed v c (free_json (unlock h)) (write_json f gives v c h)
    unfolding write_json
    write_json-MetricsServed v =
        elim (Bool-cases (leb (initial_json_cap - 0) (length (head_text f v)))) [
          | inl e ↦ rw (write_json, e) not_serialized
          | inr e ↦
              rw (write_json, e)
                (after_rows-MetricsServed v (head_text f v ++ rows_text v.procs)
                  (write_rows f gives initial_json_cap (head_text f v) v.procs c h)
                  (append_assoc (head_text f v) (rows_text v.procs) (tail_text f))
                  (write_rows-WroteRows initial_json_cap (head_text f v) v.procs (ground arith)))
        ]

  make_room-spare :
      (gives : ℕ → Bool) (cap offset spare new_cap cap' : ℕ)
      → make_room f gives cap offset spare new_cap ≡ some cap'
      → offset + spare ≤ new_cap
      → offset + spare ≤ cap'
  make_room-spare gives cap offset spare new_cap cap' e le = ground arith

  -- Each process takes less than 1024 bytes.
  abbrev pub RowsFit : List (Row F) → Type 0
  RowsFit [] = Unit {0}
  RowsFit (p ∷ ps) = (length (row_text f p (is_empty f ps)) < 1024) × RowsFit ps

  module _ (gives : ℕ → Bool) (g : (n : ℕ) → gives n ≡ true) (c : Client) (h : Held) where
    -- With memory for every request, the loop comes to its end.
    write_rows-rows_written :
        (cap : ℕ) (json : Text) (ps : List (Row F))
        → RowsFit ps
        → 1024 ≤ cap
        → length json < cap
        → (r : ℕ × Text) × (write_rows f gives cap json ps c h ≡ rows_written r.0 r.1)
    unfolding write_rows
    write_rows-rows_written cap json [] fit le lt = ((cap, json), refl)
    write_rows-rows_written cap json (p ∷ ps) (fit, fits) le lt =
        let t = row_text f p (is_empty f ps) in
        elim (option_view (make_room f gives cap (length json) 1024 (cap * 2))) [
          | inl e ↦ absurd (ground (arith, g (cap * 2)))
          | inr (cap', e) ↦
              let k = make_room-spare gives cap (length json) 1024 (cap * 2) cap' e (omega arith) in
              let w : leb (cap' - length json) (length t) ≡ false = ground arith in
              let l : length (json ++ t) < cap' = ground (arith, length-append json t) in
              let (r, q) = write_rows-rows_written cap' (json ++ t) ps fits (omega arith) l in
              rw (write_rows, e, w) (r, q)
        ]

    text_written :
        (t : Text) (r : Rows) (n : ℕ) (json : Text)
        → WroteRows t c h r
        → r ≡ rows_written n json
        → (json ≡ t) × (length json < n)
    text_written t r n json gave_up e = absurd (ground arith)
    text_written t r n json (wrote cap u e lt) q = ground (arith, q, e, lt)

    end_json-whole_response :
        (v : View F) (k : Held) (cap : ℕ) (json : Text)
        → length json < cap
        → json ++ tail_text f ≡ metrics_text v
        → (end_json f gives cap json c k).0 ≡ whole_response v c
    unfolding end_json
    end_json-whole_response v k cap json lt q =
        elim (option_view (make_room f gives cap (length json) 32 (cap + 1024))) [
          | inl e ↦ absurd (ground (arith, g (cap + 1024)))
          | inr (cap', e) ↦
              let l : length json + 32 ≤ cap' = ground arith in
              let w : take (cap' - length json - 1) (tail_text f) ≡ tail_text f =
                take_all (cap' - length json - 1) (tail_text f) (ground arith) in
              rw (end_json, e, w, q) refl
        ]

    write_json-whole_response :
        (v : View F)
        → length (head_text f v) < initial_json_cap
        → RowsFit v.procs
        → (write_json f gives v c h).0 ≡ whole_response v c
    unfolding write_json
    write_json-whole_response v lt fit =
        let w : leb (initial_json_cap - 0) (length (head_text f v)) ≡ false = ground arith in
        let (r, q) =
          write_rows-rows_written initial_json_cap (head_text f v) v.procs fit (omega arith) lt in
        let (e, l) =
          text_written (head_text f v ++ rows_text v.procs) _ r.0 r.1
            (write_rows-WroteRows gives c h initial_json_cap (head_text f v) v.procs lt) q in
        rw (write_json, w, q)
          (end_json-whole_response v (unlock h) r.0 r.1 l
            (rw e (append_assoc (head_text f v) (rows_text v.procs) (tail_text f))))

  -- For every snapshot, whichever requests for memory and calls of send fail, serve_metrics_json
  -- hands send_response the whole text of the metrics, up to its first zero byte, or one of its
  -- two error messages, and returns with the lock and the buffer released. What of it the client
  -- receives depends on the calls of send.
  pub serve_metrics_json-MetricsServed :
      (gives : ℕ → Bool) (snap : Option (View F)) (c : Client) (h : Held)
      → MetricsServed (view_of f snap) c h (serve_metrics_json f gives snap c h)
  unfolding serve_metrics_json
  serve_metrics_json-MetricsServed gives snap c h =
      let r : h.readers + 1 - 1 ≡ h.readers = omega arith in
      let b : h.buffers + 1 - 1 ≡ h.buffers = omega arith in
      elim (Bool-cases (gives initial_json_cap)) [
        | inl e ↦ rw e (
            subst
              (λ (k : Held).
                MetricsServed (view_of f snap) c k
                  (write_json f gives (view_of f snap) c (malloc_json (rdlock h))))
              (rw (r, b) refl)
              (write_json-MetricsServed gives c (malloc_json (rdlock h)) (view_of f snap)))
        | inr e ↦ rw (e, r) no_memory
      ]

  -- If memory is given for every request, the text of the numbers of the system is below 64 KiB
  -- and that of each process below 1024 bytes, serve_metrics_json hands send_response the whole
  -- text of the metrics, up to its first zero byte: the numbers of the system, the processes in
  -- their order, and the end.
  pub serve_metrics_json-whole_response :
      (gives : ℕ → Bool) (snap : Option (View F)) (c : Client) (h : Held)
      → ((n : ℕ) → gives n ≡ true)
      → length (head_text f (view_of f snap)) < initial_json_cap
      → RowsFit (view_of f snap).procs
      → (serve_metrics_json f gives snap c h).0 ≡ whole_response (view_of f snap) c
  unfolding serve_metrics_json
  serve_metrics_json-whole_response gives snap c h g lt fit =
      rw (g initial_json_cap)
        (write_json-whole_response gives g c (malloc_json (rdlock h)) (view_of f snap) lt fit)
