-- ===== src/Entry/Tests.antt =====
-- The theorems about src/monitor/main.c at one command line.
use linux_dynamic_memory_all.Prelude.{
  ℕ, zero, suc, ◌≡◌, ◌<◌, refl, ap, sym, true, false, Option, none, some, List, [], ◌∷◌,
}
use linux_dynamic_memory_all.Prelude.Lists.{length}
use linux_dynamic_memory_all.Text.{Text, codes}
use linux_dynamic_memory_all.Text.Number.{pos, decimal, strtol}
use linux_dynamic_memory_all.Web.Lifecycle.{refused}
use linux_dynamic_memory_all.Web.Metrics.{Format}
use linux_dynamic_memory_all.Entry.{Config, defaults, parse_args, token_of}
use linux_dynamic_memory_all.Entry.Main.{MainCalls, Running, main}
use linux_dynamic_memory_all.Entry.MainLaws.{Ended, IsFree, main-Ended}
use linux_dynamic_memory_all.Entry.Laws.{token_of-refused}

abbrev zeros : ℕ → List ℕ
zeros zero = []
zeros (suc n) = 0 ∷ zeros n

abbrev config : Config
config = record defaults { port = 9000; headless = true }

-- The token of 32 zero bytes.
abbrev zero_digits : ℕ → Text
zero_digits zero = []
zero_digits (suc n) = 48 ∷ zero_digits n

abbrev arguments : List Text
arguments = codes "--headless" ∷ codes "--port" ∷ codes "9000" ∷ []

abbrev length_of : Option (List ℕ) → ℕ
length_of none = 0
length_of (some bytes) = length bytes

only_zeros : (bytes : List ℕ) → some (zeros 32) ≡ some bytes → length bytes ≡ 32
only_zeros bytes e = sym (ap length_of e)

token_of-refused_example :
    (0 < length (zero_digits 64))
    × (refused (some config.bind_host) (pos config.port) (some (zero_digits 64)) ≡ false)
unfolding parse_args token_of strtol
token_of-refused_example =
    token_of-refused arguments (some (zeros 32)) config (zero_digits 64) only_zeros refl refl

-- Nothing is held when the program starts.
abbrev at_start : Running ℕ
at_start = record {
  snapshot = false;
  terminal = false;
  server = record {
    bind_host = [];
    port = 0;
    auth_token = [];
    server_fd = none;
    is_running = false;
    initialized = false;
    worker_mutex = false;
    worker_cond = false;
    snapshot_lock = false;
    latest_snapshot = false;
    listeners = [];
  };
  served = none;
  printed = [];
}

at_start-IsFree : IsFree at_start
at_start-IsFree = record {
  no_snapshot = refl;
  no_terminal = refl;
  no_server = record {
    idle = refl;
    uninitialized = refl;
    no_mutex = refl;
    no_cond = refl;
    no_lock = refl;
    no_snapshot = refl;
    sockets = refl;
  };
}

-- A float is a number here.
abbrev numbers : Format ℕ
numbers = record { fixed2 = decimal; signed = λ z. codes "0"; zero_float = 0 }

-- Only the snapshot for `--json` and the binding of the socket fail.
abbrev no_bind : MainCalls ℕ
no_bind = record {
  sigaction = true;
  proc_parser_init = true;
  malloc = true;
  json_snapshot = none;
  init = record { mutex_init = true; cond_init = true; snapshot_malloc = true; rwlock_init = true };
  start = record {
    socket = some 4;
    inet_pton = true;
    bind = false;
    listen = true;
    pthread_create = true;
  };
  tui_init = true;
}

main-Ended_example : Ended [] (main numbers no_bind arguments (some (zeros 32)) 0 [] at_start)
main-Ended_example =
    main-Ended numbers no_bind 0 [] at_start at_start-IsFree arguments (some (zeros 32))
