-- ===== src/Entry/MainLaws.antt =====
-- `main` of src/monitor/main.c gives back what it holds.
use linux_dynamic_memory_all.Prelude.{
  ℕ, ◌≡◌, ◌≤◌, refl, Bool, true, false, not, Option, none, some, List, [], ◌∷◌, arith, ◌∙◌,
}
use linux_dynamic_memory_all.Prelude.Tests.{if◌then◌else◌, if_both}
use linux_dynamic_memory_all.Text.{Text}
use linux_dynamic_memory_all.Text.Number.{pos}
use linux_dynamic_memory_all.Web.Lifecycle.{Life, gui_server_start, gui_server_stop, IsReleased}
use linux_dynamic_memory_all.Web.LifecycleLaws.{
  Inited, is_refused, failed, ready, gui_server_init-Inited, gui_server_stop-start,
}
use linux_dynamic_memory_all.Web.Metrics.{Format, View}
use linux_dynamic_memory_all.Entry.{Config, defaults, Parsed, parse_args, token_of}
use linux_dynamic_memory_all.Entry.Main.{
  malloc_snapshot, print_json, MainCalls, Running, rounds, serve_until_stopped, run_with,
  with_token, with_config, main,
}
use linux_dynamic_memory_all.Entry.Codes.{HasCode, taken_all, stopped, parse_args-HasCode}

module _ {A : Type 0} where
  -- The exit code, and what is held at the end: nothing but what was open before.
  pub record Ended (listeners : List ℕ) (r : ℕ × Running A) : Type 0 where
    pub code : r.0 ≤ 2
    pub freed : r.1.snapshot ≡ false
    pub closed : r.1.terminal ≡ false
    pub released : IsReleased listeners r.1.server

  rounds-keep :
      (taken : List (Option A)) (m : Running A)
      → ((rounds taken m).server ≡ m.server) × ((rounds taken m).terminal ≡ m.terminal)
  unfolding rounds
  rounds-keep [] m = (refl, refl)
  rounds-keep (none ∷ more) m = rounds-keep more m
  rounds-keep (some t ∷ more) m = rounds-keep more _

  module _ {F : Type 0} (listeners : List ℕ) (calls : MainCalls F) (empty : A)
      (taken : List (Option A)) where
    serve_until_stopped-Ended :
        (headless : Bool) (m : Running A)
        → m.terminal ≡ false
        → IsReleased listeners (gui_server_stop m.server)
        → Ended listeners (serve_until_stopped headless calls.tui_init taken m)
    unfolding serve_until_stopped
    serve_until_stopped-Ended headless m off e =
        let (s, t) = rounds-keep taken m in
        let (s', t') = rounds-keep taken (record m { terminal = true }) in
        if_both (Ended listeners) headless
          (λ h. record { code = ground arith; freed = refl; closed = t ∙ off; released = rw s e })
          (λ h.
            if_both (Ended listeners) (not calls.tui_init)
              (λ h. record { code = ground arith; freed = refl; closed = off; released = e })
              (λ h. record {
                code = ground arith;
                freed = refl;
                closed = refl;
                released = rw s' e;
              }))

  -- Nothing is held.
  pub record IsFree (m : Running A) : Type 0 where
    pub no_snapshot : m.snapshot ≡ false
    pub no_terminal : m.terminal ≡ false
    pub no_server : IsReleased m.server.listeners m.server

  module _ {F : Type 0} (f : Format F) (calls : MainCalls F) (empty : A) (taken : List (Option A))
      (m : Running A) (idle : IsFree m) where
    abbrev L : List ℕ
    L = m.server.listeners

    left : (n : ℕ) → n ≤ 2 → Ended L (n, m)
    left n le = record {
      code = le;
      freed = idle.no_snapshot;
      closed = idle.no_terminal;
      released = idle.no_server;
    }

    -- What `gui_server_init` leaves is used or given back.
    launched-Ended :
        (c : Config) (token : Text) (i : Bool × Life)
        → Inited (some c.bind_host) (pos c.port) (some token) m.server i
        → Ended L (
            if not i.0
            then (1, record m { snapshot = false; server = i.1 })
            else if not (gui_server_start calls.start i.1).0
            then (
              1,
              record m {
                snapshot = false;
                server = gui_server_stop (gui_server_start calls.start i.1).1;
                served = some empty;
              },
            )
            else serve_until_stopped c.headless calls.tui_init taken (record m {
              snapshot = true;
              server = (gui_server_start calls.start i.1).1;
              served = some empty;
            }))
    launched-Ended c token i (is_refused e) = record {
      code = ground arith;
      freed = refl;
      closed = idle.no_terminal;
      released = idle.no_server;
    }
    launched-Ended c token i (failed s' e) = record {
      code = ground arith;
      freed = refl;
      closed = idle.no_terminal;
      released = e;
    }
    launched-Ended c token i (ready s' r h1 h2 h3 h4) =
        let e = gui_server_stop-start calls.start L s' r in
        if_both (Ended L) (not (gui_server_start calls.start s').0)
          (λ n. record {
            code = ground arith;
            freed = refl;
            closed = idle.no_terminal;
            released = e;
          })
          (λ n. serve_until_stopped-Ended L calls empty taken c.headless _ idle.no_terminal e)

    print_json-Ended : (o : Option (View F)) → Ended L (print_json f o (malloc_snapshot m))
    print_json-Ended none = record {
      code = ground arith;
      freed = refl;
      closed = idle.no_terminal;
      released = idle.no_server;
    }
    print_json-Ended (some v) = record {
      code = ground arith;
      freed = refl;
      closed = idle.no_terminal;
      released = idle.no_server;
    }

    run_with-Ended : (c : Config) (token : Text) → Ended L (run_with f calls empty taken c token m)
    unfolding run_with
    run_with-Ended c token =
        let E = Ended L in
        if_both E (not calls.sigaction) (λ e. left 1 (ground arith))
          (λ e.
            if_both E (not calls.proc_parser_init) (λ e. left 1 (ground arith))
              (λ e.
                if_both E (not calls.malloc) (λ e. left 1 (ground arith))
                  (λ e.
                    if_both E c.output_json (λ e. print_json-Ended calls.json_snapshot)
                      (λ e. launched-Ended c token _ (
                        gui_server_init-Inited calls.init (some c.bind_host) (pos c.port)
                          (some token) m.server)))))

    with_token-Ended :
        (c : Config) (o : Option Text) → Ended L (with_token f calls empty taken c m o)
    with_token-Ended c none = left 1 (ground arith)
    with_token-Ended c (some token) = run_with-Ended c token

    with_config-Ended :
        (random : Option (List ℕ)) (p : Parsed)
        → HasCode p
        → Ended L (with_config f calls random empty taken m p)
    with_config-Ended random p (taken_all c) = with_token-Ended c (token_of random c)
    with_config-Ended random p (stopped n le) = left n le

    -- For all arguments, whichever of the calls fail, and however many rounds its loop takes, main
    -- ends with an exit code of at most 2, with the snapshot freed, the terminal given back, all
    -- that the server held released, and no listening socket open but those open before.
    pub main-Ended :
        (args : List Text) (random : Option (List ℕ))
        → Ended L (main f calls args random empty taken m)
    unfolding main
    main-Ended args random =
        with_config-Ended random (parse_args args defaults) (parse_args-HasCode args defaults)
