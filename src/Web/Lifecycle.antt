-- ===== src/Web/Lifecycle.antt =====
-- `gui_server_init`, `gui_server_start` and `gui_server_stop` of src/monitor/gui_server.c, and what
-- they hold. The threads of a running server are in Web/Workers.
use linux_dynamic_memory_all.Prelude.{
  ℕ, ◌≡◌, Bool, true, false, not, ◌||◌, Option, none, some, List, [], ◌∷◌,
}
use linux_dynamic_memory_all.Prelude.Tests.{ltb, leb, if◌then◌else◌}
use linux_dynamic_memory_all.Prelude.Lists.{length, erase}
use linux_dynamic_memory_all.Text.{Text, codes}
use linux_dynamic_memory_all.Text.Number.{ℤ, leℤ, ltℤ, magnitude}

-- `gui_server_t`, less what the threads use, and whether its parts are held: the mutex, the
-- condition variable, the lock and the snapshot. `listeners` are the listening sockets that are open.
pub record Life : Type 0 where
  pub bind_host : Text
  pub port : ℕ
  pub auth_token : Text
  pub server_fd : Option ℕ
  pub is_running : Bool
  pub initialized : Bool
  pub worker_mutex : Bool
  pub worker_cond : Bool
  pub snapshot_lock : Bool
  pub latest_snapshot : Bool
  pub listeners : List ℕ

-- Which of the calls of `gui_server_init` succeed.
pub record InitCalls : Type 0 where
  pub mutex_init : Bool
  pub cond_init : Bool
  pub snapshot_malloc : Bool
  pub rwlock_init : Bool

-- Which of the calls of `gui_server_start` succeed; `socket` gives a descriptor.
pub record StartCalls : Type 0 where
  pub socket : Option ℕ
  pub inet_pton : Bool
  pub bind : Bool
  pub listen : Bool
  pub pthread_create : Bool

abbrev pub max_host_len : ℕ
max_host_len = 64

abbrev pub max_auth_token_len : ℕ
max_auth_token_len = 128

-- The bytes of a string that is NULL or not.
abbrev pub text_of : Option Text → Text
text_of none = []
text_of (some t) = t

-- The arguments are refused.
abbrev pub refused : Option Text → ℤ → Option Text → Bool
refused host port token =
    leℤ port 0
    || ltℤ 65535 port
    || leb max_host_len (length (text_of host))
    || leb max_auth_token_len (length (text_of token))

-- The server after the assignments; nothing is held.
abbrev pub fresh : Option Text → ℤ → Option Text → List ℕ → Life
fresh host port token listeners = record {
  bind_host = if ltb 0 (length (text_of host)) then text_of host else codes "127.0.0.1";
  port = magnitude port;
  auth_token = text_of token;
  server_fd = none;
  is_running = false;
  initialized = false;
  worker_mutex = false;
  worker_cond = false;
  snapshot_lock = false;
  latest_snapshot = false;
  listeners = listeners;
}

-- The result is whether 0 is returned.
unfoldable pub gui_server_init : InitCalls → Option Text → ℤ → Option Text → Life → Bool × Life
gui_server_init calls host port token s =
    let s0 = fresh host port token s.listeners in
    let s1 = record s0 { worker_mutex = true } in
    let s2 = record s1 { worker_cond = true } in
    let s3 = record s2 { latest_snapshot = true } in
    if refused host port token
    then (false, s)
    else if not calls.mutex_init
    then (false, s0)
    else if not calls.cond_init
    then (false, record s1 { worker_mutex = false })
    else if not calls.snapshot_malloc
    then (false, record s2 { worker_cond = false; worker_mutex = false })
    else if not calls.rwlock_init
    then (false, record s3 { latest_snapshot = false; worker_cond = false; worker_mutex = false })
    else (true, record s3 { snapshot_lock = true; initialized = true })

-- `close(server->server_fd); server->server_fd = -1`.
abbrev close_listener : ℕ → Life → Life
close_listener fd s = record s { server_fd = none; listeners = erase fd s.listeners }

-- After `socket`.
abbrev start_with : StartCalls → ℕ → Life → Bool × Life
start_with calls fd s =
    if not calls.inet_pton
    then (false, close_listener fd s)
    else if not calls.bind
    then (false, close_listener fd s)
    else if not calls.listen
    then (false, close_listener fd s)
    else if not calls.pthread_create
    then (false, record s { is_running = false; listeners = erase fd s.listeners })
    else (true, record s { is_running = true })

unfoldable pub gui_server_start : StartCalls → Life → Bool × Life
gui_server_start calls s =
    if not s.initialized || s.is_running then (false, s) else elim calls.socket [
      | none ↦ (false, record s { server_fd = none })
      | some fd ↦
          start_with calls fd (record s { server_fd = some fd; listeners = fd ∷ s.listeners })
    ]

-- The listening socket is closed where there is one.
abbrev close_if_open : Option ℕ → Life → Life
close_if_open none s = s
close_if_open (some fd) s = close_listener fd s

abbrev release_all : Life → Life
release_all s = record s {
  worker_mutex = false;
  worker_cond = false;
  snapshot_lock = false;
  latest_snapshot = false;
  initialized = false;
}

unfoldable pub gui_server_stop : Life → Life
gui_server_stop s =
    if not s.initialized
    then s
    else if s.is_running
    then release_all (close_if_open s.server_fd (record s { is_running = false }))
    else release_all s

-- Nothing is held, and the listening sockets are `listeners`.
pub record IsReleased (listeners : List ℕ) (s : Life) : Type 0 where
  pub idle : s.is_running ≡ false
  pub uninitialized : s.initialized ≡ false
  pub no_mutex : s.worker_mutex ≡ false
  pub no_cond : s.worker_cond ≡ false
  pub no_lock : s.snapshot_lock ≡ false
  pub no_snapshot : s.latest_snapshot ≡ false
  pub sockets : s.listeners ≡ listeners

-- All is held, and the server is not running.
pub record IsReady (listeners : List ℕ) (s : Life) : Type 0 where
  pub idle : s.is_running ≡ false
  pub initialized : s.initialized ≡ true
  pub has_mutex : s.worker_mutex ≡ true
  pub has_cond : s.worker_cond ≡ true
  pub has_lock : s.snapshot_lock ≡ true
  pub has_snapshot : s.latest_snapshot ≡ true
  pub sockets : s.listeners ≡ listeners
