-- ===== src/Web/Workers/Inv.antt =====
-- What holds of the threads of src/monitor/gui_server.c at every moment.
use linux_dynamic_memory_all.Prelude.{
  ℕ, suc, ◌+◌, ◌-◌, ◌≡◌, ◌≤◌, ◌<◌, ◌≢◌, ◌⊎◌, inl, inr, refl, Bool, true, false, not, List, [], ◌∷◌,
  arith,
}
use linux_dynamic_memory_all.Prelude.Tests.{◌==◌, if◌then◌else◌, Bool-cases, ==→eq}
use linux_dynamic_memory_all.Prelude.Lists.{length, has, erase}
use linux_dynamic_memory_all.Web.Workers.{
  Acceptor, at_test, in_accept, accepted, admitted, turned_away, gave_up, exited, Stop, not_called,
  joined, waiting, destroyed, broadcast, Server, started, max_client_workers,
}

-- The connection that the acceptor counts in `active_workers`.
abbrev pub counted : Acceptor → ℕ
counted (admitted fd) = 1
counted gave_up = 1
counted a = 0

-- How often `a` is in a list.
abbrev pub occurs : ℕ → List ℕ → ℕ
occurs a [] = 0
occurs a (x ∷ xs) = let n = occurs a xs in if a == x then suc n else n

-- How often the acceptor has the connection `a`.
abbrev pub held : ℕ → Acceptor → ℕ
held a (accepted fd) = if a == fd then 1 else 0
held a (admitted fd) = if a == fd then 1 else 0
held a (turned_away fd) = if a == fd then 1 else 0
held a p = 0

abbrev pub is_called : Stop → Bool
is_called not_called = false
is_called p = true

-- The loop has been waited for.
abbrev pub has_joined : Stop → Bool
has_joined joined = true
has_joined waiting = true
has_joined destroyed = true
has_joined p = false

abbrev pub has_destroyed : Stop → Bool
has_destroyed destroyed = true
has_destroyed p = false

joined_before : (p : Stop) → has_destroyed p ≡ true → has_joined p ≡ true
joined_before p e = ground arith

pub unless {ℓ} : {P : Type ℓ} (b : Bool) → (b ≡ true → P) → (b ≡ false) ⊎ P
unless true f = inr (f refl)
unless false f = inl refl

pub given {ℓ} : {P : Type ℓ} {b : Bool} → (b ≡ false) ⊎ P → b ≡ true → P
given (inl e) t = absurd (ground arith)
given (inr x) t = x

abbrev pub is_waiting : Stop → Bool
is_waiting waiting = true
is_waiting p = false

broadcast_called : (p : Stop) → is_called (broadcast p) ≡ is_called p
broadcast_called p = ground arith

broadcast_joined : (p : Stop) → has_joined (broadcast p) ≡ has_joined p
broadcast_joined p = ground arith

broadcast_destroyed : (p : Stop) → has_destroyed (broadcast p) ≡ has_destroyed p
broadcast_destroyed p = ground arith

broadcast_waiting : (p : Stop) → is_waiting (broadcast p) ≡ false
broadcast_waiting p = ground arith

-- `active_workers` counts the threads and the connection to be handed to one; every open connection
-- is in one hand; the shutdown has waited for what it says.
pub record IsSound (s : Server) : Type 0 where
  pub counts : s.active_workers ≡ length s.serving + s.leaving + counted s.acceptor
  pub bounded : s.active_workers ≤ max_client_workers
  pub owned : (a : ℕ) → occurs a s.open_fds ≡ occurs a s.serving + held a s.acceptor
  pub flag : s.is_running ≡ not (is_called s.stop)
  pub left_loop : (has_joined s.stop ≡ false) ⊎ (s.acceptor ≡ exited)
  pub left_all : (has_destroyed s.stop ≡ false) ⊎ (s.active_workers ≡ 0)
  pub waits : (is_waiting s.stop ≡ false) ⊎ (0 < s.active_workers)

occurs-erase :
    (a fd : ℕ) (xs : List ℕ)
    → has fd xs ≡ true
    → occurs a xs ≡ occurs a (erase fd xs) + held a (accepted fd)
occurs-erase a fd [] h = absurd (ground arith)
occurs-erase a fd (x ∷ xs) h = elim (Bool-cases (fd == x)) [
  | inl e ↦ rw (e, ==→eq fd x e) (ground arith)
  | inr e ↦ rw e (ground (arith, occurs-erase a fd xs))
]

pub length-erase :
    (fd : ℕ) (xs : List ℕ) → has fd xs ≡ true → length xs ≡ suc (length (erase fd xs))
length-erase fd [] h = absurd (ground arith)
length-erase fd (x ∷ xs) h = ground (arith, length-erase fd xs)

occurs-has : (a : ℕ) (xs : List ℕ) → 0 < occurs a xs → has a xs ≡ true
occurs-has a [] lt = absurd (ground arith)
occurs-has a (x ∷ xs) lt = ground (arith, occurs-has a xs)

pub started-IsSound : IsSound started
started-IsSound = record {
  counts = refl;
  bounded = ground arith;
  owned = λ a. refl;
  flag = refl;
  left_loop = unless _ (λ e. absurd (ground arith));
  left_all = unless _ (λ e. refl);
  waits = inl refl;
}

-- The acceptor goes on, in its loop, with the same connection in hand.
pub goes_on :
    (s : Server) (a : Acceptor)
    → IsSound s
    → s.acceptor ≢ exited
    → counted a ≡ counted s.acceptor
    → ((n : ℕ) → held n a ≡ held n s.acceptor)
    → IsSound (record s { acceptor = a })
goes_on s a i here c h = record {
  counts = rw c i.counts;
  bounded = i.bounded;
  owned = λ n. rw (h n) (i.owned n);
  flag = i.flag;
  left_loop = unless _ (λ e. absurd (here (given i.left_loop e)));
  left_all = i.left_all;
  waits = i.waits;
}

has_owner : (s : Server) → IsSound s → (fd : ℕ) → 0 < held fd s.acceptor → has fd s.open_fds ≡ true
has_owner s i fd lt = occurs-has fd s.open_fds (omega (arith, i.owned fd, lt))

pub accept_gives-IsSound :
    (s : Server) (fd : ℕ)
    → IsSound s
    → s.acceptor ≡ in_accept
    → IsSound (record s { acceptor = accepted fd; open_fds = fd ∷ s.open_fds })
accept_gives-IsSound s fd i at = record {
  counts = let c = i.counts in ground arith;
  bounded = i.bounded;
  owned = λ a. let o = i.owned a in ground arith;
  flag = i.flag;
  left_loop = unless _ (λ e. let l = given i.left_loop e in absurd (ground arith));
  left_all = i.left_all;
  waits = i.waits;
}

pub admit-IsSound :
    (s : Server) (fd : ℕ)
    → IsSound s
    → s.acceptor ≡ accepted fd
    → s.active_workers < max_client_workers
    → IsSound (record s { acceptor = admitted fd; active_workers = suc s.active_workers })
admit-IsSound s fd i at lt = record {
  counts = let c = i.counts in ground arith;
  bounded = ground arith;
  owned = λ a. let o = i.owned a in ground arith;
  flag = i.flag;
  left_loop = unless _ (λ e. let l = given i.left_loop e in absurd (ground arith));
  left_all =
      unless _ (λ e. let l = given i.left_loop (joined_before s.stop e) in absurd (ground arith));
  waits = unless _ (λ e. omega arith);
}

-- The acceptor's connection is closed.
pub close-IsSound :
    (s : Server) (fd : ℕ) (a : Acceptor)
    → IsSound s
    → s.acceptor ≢ exited
    → counted a ≡ counted s.acceptor
    → ((n : ℕ) → held n s.acceptor ≡ held n (accepted fd))
    → ((n : ℕ) → held n a ≡ 0)
    → IsSound (record s { acceptor = a; open_fds = erase fd s.open_fds })
close-IsSound s fd a i here c h z =
    let own = has_owner s i fd (rw (h fd) (ground arith)) in
    record {
      counts = rw c i.counts;
      bounded = i.bounded;
      owned = λ n. omega (arith, i.owned n, occurs-erase n fd s.open_fds own, h n, z n);
      flag = i.flag;
      left_loop = unless _ (λ e. absurd (here (given i.left_loop e)));
      left_all = i.left_all;
      waits = i.waits;
    }

pub launch-IsSound :
    (s : Server) (fd : ℕ)
    → IsSound s
    → s.acceptor ≡ admitted fd
    → IsSound (record s { acceptor = at_test; serving = fd ∷ s.serving })
launch-IsSound s fd i at = record {
  counts = let c = i.counts in ground arith;
  bounded = i.bounded;
  owned = λ a. let o = i.owned a in ground arith;
  flag = i.flag;
  left_loop = unless _ (λ e. let l = given i.left_loop e in absurd (ground arith));
  left_all = i.left_all;
  waits = i.waits;
}

pub lower-IsSound :
    (s : Server)
    → IsSound s
    → s.acceptor ≡ gave_up
    → IsSound (record s {
      acceptor = at_test;
      active_workers = s.active_workers - 1;
      stop = broadcast s.stop;
    })
lower-IsSound s i at = record {
  counts = let c = i.counts in ground arith;
  bounded = let b = i.bounded in ground arith;
  owned = λ a. let o = i.owned a in ground arith;
  flag = rw (broadcast_called s.stop) i.flag;
  left_loop =
      rw (broadcast_joined s.stop)
        (unless _ (λ e. let l = given i.left_loop e in absurd (ground arith)));
  left_all =
      rw (broadcast_destroyed s.stop) (unless _ (λ e. let l = given i.left_all e in ground arith));
  waits = inl (broadcast_waiting s.stop);
}

occurs_of_has : (a : ℕ) (xs : List ℕ) → has a xs ≡ true → 0 < occurs a xs
occurs_of_has a [] h = absurd (ground arith)
occurs_of_has a (x ∷ xs) h = ground (arith, occurs_of_has a xs)

pub client_closes-IsSound :
    (s : Server) (fd : ℕ)
    → IsSound s
    → has fd s.serving ≡ true
    → IsSound (record s {
      serving = erase fd s.serving;
      open_fds = erase fd s.open_fds;
      leaving = suc s.leaving;
    })
client_closes-IsSound s fd i mem =
    let own =
      occurs-has fd s.open_fds (omega (arith, i.owned fd, occurs_of_has fd s.serving mem)) in
    record {
      counts = omega (arith, i.counts, length-erase fd s.serving mem);
      bounded = i.bounded;
      owned = λ n.
          omega
            (arith, i.owned n, occurs-erase n fd s.open_fds own, occurs-erase n fd s.serving mem);
      flag = i.flag;
      left_loop = i.left_loop;
      left_all = i.left_all;
      waits = i.waits;
    }

pub client_leaves-IsSound :
    (s : Server)
    → IsSound s
    → 0 < s.leaving
    → IsSound (record s {
      leaving = s.leaving - 1;
      active_workers = s.active_workers - 1;
      stop = broadcast s.stop;
    })
client_leaves-IsSound s i lt = record {
  counts = omega (arith, i.counts);
  bounded = omega (arith, i.bounded);
  owned = i.owned;
  flag = rw (broadcast_called s.stop) i.flag;
  left_loop = rw (broadcast_joined s.stop) i.left_loop;
  left_all = rw (broadcast_destroyed s.stop) (unless _ (λ e. omega (arith, given i.left_all e)));
  waits = inl (broadcast_waiting s.stop);
}
