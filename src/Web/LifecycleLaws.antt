-- ===== src/Web/LifecycleLaws.antt =====
-- What src/monitor/gui_server.c holds after each of its calls.
use linux_dynamic_memory_all.Prelude.{
  ℕ, suc, ◌≡◌, ◌≤◌, ◌<◌, refl, ap, ◌∙◌, Bool, true, false, not, ◌||◌, Option, none, some, List, [],
  ◌∷◌, arith,
}
use linux_dynamic_memory_all.Prelude.Tests.{ltb, ◌==◌, if◌then◌else◌, if_both, option_both}
use linux_dynamic_memory_all.Prelude.Lists.{length, erase}
use linux_dynamic_memory_all.Text.{Text, codes}
use linux_dynamic_memory_all.Text.Number.{ℤ, pos, negsuc, leℤ, ltℤ, magnitude}
use linux_dynamic_memory_all.Web.Lifecycle.{
  Life, InitCalls, StartCalls, refused, fresh, gui_server_init, gui_server_start, gui_server_stop,
  IsReleased, IsReady, text_of, max_host_len, max_auth_token_len,
}

-- What `gui_server_init` leaves: all of it held, or nothing.
pub data Inited (host : Option Text) (port : ℤ) (token : Option Text) (s : Life)
    : Bool × Life → Type 0 where
  is_refused : refused host port token ≡ true → Inited host port token s (false, s)
  failed : (s' : Life) → IsReleased s.listeners s' → Inited host port token s (false, s')
  ready :
      (s' : Life)
      → IsReady s.listeners s'
      → length s'.bind_host < max_host_len
      → (0 < length s'.bind_host)
      → (1 ≤ s'.port) × (s'.port ≤ 65535)
      → (s'.auth_token ≡ text_of token) × (length s'.auth_token < max_auth_token_len)
      → Inited host port token s (true, s')

fresh-IsReleased :
    (host : Option Text) (port : ℤ) (token : Option Text) (s : Life)
    → IsReleased s.listeners (fresh host port token s.listeners)
fresh-IsReleased host port token s = record {
  idle = refl;
  uninitialized = refl;
  no_mutex = refl;
  no_cond = refl;
  no_lock = refl;
  no_snapshot = refl;
  sockets = refl;
}

abbrev chosen : Text → Text
chosen t = if ltb 0 (length t) then t else codes "127.0.0.1"

host_fits : (t : Text) → length t < max_host_len → length (chosen t) < max_host_len
host_fits [] lt = ground arith
host_fits (c ∷ t) lt = let e : ltb 0 (suc (length t)) ≡ true = ground arith in rw e lt

host_is_some : (t : Text) → 0 < length (chosen t)
host_is_some [] = ground arith
host_is_some (c ∷ t) = let e : ltb 0 (suc (length t)) ≡ true = ground arith in rw e (ground arith)

port_fits :
    (p : ℤ) → leℤ p 0 ≡ false → ltℤ 65535 p ≡ false → (1 ≤ magnitude p) × (magnitude p ≤ 65535)
port_fits (pos n) a b = (ground arith, ground arith)
port_fits (negsuc n) a b = absurd (ground arith)

-- Whichever of its calls fail, gui_server_init refuses its arguments and changes nothing, or fails
-- and holds nothing, or returns 0 and holds all it needs, not running, with a host that is not
-- empty, fits its field, a port from 1 to 65535 and the given token, which fits.
pub gui_server_init-Inited :
    (calls : InitCalls) (host : Option Text) (port : ℤ) (token : Option Text) (s : Life)
    → Inited host port token s (gui_server_init calls host port token s)
unfolding gui_server_init
gui_server_init-Inited calls host port token s =
    let I = Inited host port token s in
    let no = failed (fresh host port token s.listeners) (fresh-IsReleased host port token s) in
    if_both I (refused host port token) (λ e. is_refused e)
      (λ ok.
        if_both I (not calls.mutex_init) (λ e. no)
          (λ e.
            if_both I (not calls.cond_init) (λ e. no)
              (λ e.
                if_both I (not calls.snapshot_malloc) (λ e. no)
                  (λ e.
                    if_both I (not calls.rwlock_init) (λ e. no)
                      (λ e.
                        ready _
                          (record {
                            idle = refl;
                            initialized = refl;
                            has_mutex = refl;
                            has_cond = refl;
                            has_lock = refl;
                            has_snapshot = refl;
                            sockets = refl;
                          })
                          (host_fits (text_of host) (ground (arith, ok)))
                          (host_is_some (text_of host))
                          (port_fits port (ground (arith, ok)) (ground (arith, ok)))
                          (refl, ground (arith, ok)))))))

erase_head : (fd : ℕ) (xs : List ℕ) → erase fd (fd ∷ xs) ≡ xs
erase_head fd xs = let e : (fd == fd) ≡ true = ground arith in rw e refl

-- The server is as after `gui_server_init`, or it runs with its listening socket open.
pub data Launched (listeners : List ℕ) : Bool × Life → Type 0 where
  not_running : (s : Life) → IsReady listeners s → Launched listeners (false, s)
  running :
      (s : Life) (fd : ℕ)
      → s.is_running ≡ true
      → s.initialized ≡ true
      → s.server_fd ≡ some fd
      → s.listeners ≡ fd ∷ listeners
      → Launched listeners (true, s)

IsReady-with :
    (listeners : List ℕ) (fd : ℕ) (o : Option ℕ) (b : Bool) (s : Life)
    → b ≡ false
    → IsReady listeners s
    → IsReady listeners
        (record s { server_fd = o; is_running = b; listeners = erase fd (fd ∷ s.listeners) })
IsReady-with listeners fd o b s idle i = record {
  idle = idle;
  initialized = i.initialized;
  has_mutex = i.has_mutex;
  has_cond = i.has_cond;
  has_lock = i.has_lock;
  has_snapshot = i.has_snapshot;
  sockets = erase_head fd s.listeners ∙ i.sockets;
}

keeps_IsReady :
    (listeners : List ℕ) (o : Option ℕ) (s : Life)
    → IsReady listeners s
    → IsReady listeners (record s { server_fd = o })
keeps_IsReady listeners o s i = record {
  idle = i.idle;
  initialized = i.initialized;
  has_mutex = i.has_mutex;
  has_cond = i.has_cond;
  has_lock = i.has_lock;
  has_snapshot = i.has_snapshot;
  sockets = i.sockets;
}

-- start
pub gui_server_start-Launched :
    (calls : StartCalls) (listeners : List ℕ) (s : Life)
    → IsReady listeners s
    → Launched listeners (gui_server_start calls s)
unfolding gui_server_start
gui_server_start-Launched calls listeners s i =
    let L = Launched listeners in
    if_both L (not s.initialized || s.is_running) (λ e. not_running s i)
      (λ e.
        option_both L calls.socket _ _ (λ n. not_running _ (keeps_IsReady listeners none s i))
          (λ fd o.
            let off = IsReady-with listeners fd in
            if_both L (not calls.inet_pton) (λ e. not_running _ (off none s.is_running s i.idle i))
              (λ e.
                if_both L (not calls.bind) (λ e. not_running _ (off none s.is_running s i.idle i))
                  (λ e.
                    if_both L (not calls.listen)
                      (λ e. not_running _ (off none s.is_running s i.idle i))
                      (λ e.
                        if_both L (not calls.pthread_create)
                          (λ e. not_running _ (off (some fd) false s refl i))
                          (λ e.
                            running _ fd refl i.initialized refl (ap (λ l. fd ∷ l) i.sockets)))))))

released :
    (listeners : List ℕ) (o : Option ℕ) (b : Bool) (fds : List ℕ) (s : Life)
    → b ≡ false
    → fds ≡ listeners
    → IsReleased listeners (record s {
      server_fd = o;
      is_running = b;
      listeners = fds;
      worker_mutex = false;
      worker_cond = false;
      snapshot_lock = false;
      latest_snapshot = false;
      initialized = false;
    })
released listeners o b fds s idle e = record {
  idle = idle;
  uninitialized = refl;
  no_mutex = refl;
  no_cond = refl;
  no_lock = refl;
  no_snapshot = refl;
  sockets = e;
}

pub stop-IsReleased :
    (listeners : List ℕ) (r : Bool × Life)
    → Launched listeners r
    → IsReleased listeners (gui_server_stop r.1)
unfolding gui_server_stop
stop-IsReleased listeners r (not_running s i) =
    rw (i.initialized, i.idle) (released listeners s.server_fd false s.listeners s refl i.sockets)
stop-IsReleased listeners r (running s fd on set at socks) =
    rw (set, on, at)
      (released listeners none false (erase fd s.listeners) s refl
        (ap (λ l. erase fd l) socks ∙ erase_head fd listeners))

-- For a server that holds all it needs and does not run, whichever calls of gui_server_start fail,
-- gui_server_stop after it releases all that is held, and the open listening sockets are those
-- before the start.
pub gui_server_stop-start :
    (calls : StartCalls) (listeners : List ℕ) (s : Life)
    → IsReady listeners s
    → IsReleased listeners (gui_server_stop (gui_server_start calls s).1)
gui_server_stop-start calls listeners s i =
    stop-IsReleased listeners (gui_server_start calls s)
      (gui_server_start-Launched calls listeners s i)
