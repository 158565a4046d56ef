-- ===== src/Memory.antt =====
-- include/allocator.h and the static variables of src/allocator/allocator.c and free_list.c: block
-- headers and footers in memory, the allocator's globals, the operating system's part, and runs
-- that may end in `fatal_abort`.
--
-- Memory has three views: the header at an address, the footer at an address, and the byte at an
-- address. A write through one view leaves the others alone, so what a program writes outside its
-- own payload, over metadata, is not modelled. Field widths are those of the structs.
use linux_dynamic_memory_all.Prelude.{ℕ, ◌*◌, ◌^◌, Bool, Option, ◌≡◌, refl}
use linux_dynamic_memory_all.Prelude.Tests.{◌==◌, if◌then◌else◌}

-- An address, or NULL.
abbrev pub Ptr : Type 0
Ptr = ℕ

abbrev pub null : Ptr
null = 0

-- SIZE_MAX, and UINTPTR_MAX.
abbrev pub size_max : ℕ
size_max = 0xffff_ffff_ffff_ffff

-- One more than SIZE_MAX: `size_t` arithmetic is modulo this.
abbrev pub size_mod : ℕ
size_mod = 2 ^ 64

abbrev pub alloc_magic_header : ℕ
alloc_magic_header = 0xDEADBEEF

abbrev pub alloc_magic_footer : ℕ
alloc_magic_footer = 0xBEEFDEAD

abbrev pub mmap_threshold : ℕ
mmap_threshold = 128 * 1024

abbrev pub num_size_classes : ℕ
num_size_classes = 8

abbrev pub alignment : ℕ
alignment = 16

-- sizeof(block_header_t) and sizeof(block_footer_t).
abbrev pub header_size : ℕ
header_size = 48

abbrev pub footer_size : ℕ
footer_size = 16

-- Their sum: the least size of a block.
abbrev pub overhead : ℕ
overhead = 64

-- `block_header_t`, less its padding.
pub record Header : Type 0 where
  pub magic_header : ℕ
  pub is_free : ℕ
  pub requested_size : ℕ
  pub block_size : ℕ
  pub is_mmap : ℕ
  pub next : Ptr
  pub prev : Ptr

-- `block_footer_t`, less its padding.
pub record Footer : Type 0 where
  pub magic_footer : ℕ
  pub block_size : ℕ

-- `allocator_stats_t`.
pub record Stats : Type 0 where
  pub total_allocated : ℕ
  pub total_freed : ℕ
  pub current_heap_size : ℕ
  pub mmap_allocations : ℕ
  pub sbrk_allocations : ℕ

-- The system calls, over a state `K` of the kernel. `none` is the failure value.
pub record Os (K : Type 0) : Type 0 where
  pub sbrk : ℕ → K → Option Ptr × K
  pub brk : Ptr → K → Bool × K
  pub mmap : ℕ → K → Option Ptr × K
  pub munmap : Ptr → ℕ → K → Bool × K
  pub mremap : Ptr → ℕ → ℕ → K → Option Ptr × K

-- The memory, `segregated_heads`, the other statics of allocator.c, `errno` and the kernel.
pub record State (K : Type 0) : Type 0 where
  pub hdr : Ptr → Header
  pub ftr : Ptr → Footer
  pub bytes : Ptr → ℕ
  pub heads : ℕ → Ptr
  pub heap_start : Ptr
  pub initial_break : Ptr
  pub last_allocator_break : Ptr
  pub stats : Stats
  pub errno : ℕ
  pub kernel : K

-- The calls of `fatal_abort`, by their message.
pub data Fatal : Type 0 where
  unlink_invalid_size : Fatal
  unlink_allocated : Fatal
  unlink_exceeds_break : Fatal
  head_linkage : Fatal
  previous_linkage : Fatal
  next_linkage : Fatal
  unlink_footer : Fatal
  find_fit_canary : Fatal
  header_canary : Fatal
  invalid_block_size : Fatal
  exceeds_heap : Fatal
  invalid_mmap_size : Fatal
  footer_canary : Fatal
  double_free : Fatal

-- How a call ends: it returns, it aborts the process, or the model's fuel ran out.
pub data Run (K : Type 0) (A : Type 0) : Type 0 where
  ok : A → State K → Run K A
  abort : Fatal → Run K A
  out_of_fuel : Run K A

abbrev pub Cmd : Type 0 → Type 0 → Type 0
Cmd K A = State K → Run K A

module _ {K A : Type 0} where
  abbrev pub pure : A → Cmd K A
  pure a s = ok a s

  abbrev pub fatal_abort : Fatal → Cmd K A
  fatal_abort e s = abort e

module _ {K A B : Type 0} where
  abbrev pub and_then : Run K A → (A → Cmd K B) → Run K B
  and_then (ok a s) f = f a s
  and_then (abort e) f = abort e
  and_then out_of_fuel f = out_of_fuel

  infixl 5 ◌>>=◌ ◌>>◌
  abbrev pub ◌>>=◌ : Cmd K A → (A → Cmd K B) → Cmd K B
  m >>= f = λ s. and_then (m s) f

  abbrev pub ◌>>◌ : Cmd K A → Cmd K B → Cmd K B
  m >> n = m >>= λ _. n

-- The function that differs from `f` at `p` only.
abbrev pub update {ℓ} : {A : Type ℓ} → (ℕ → A) → ℕ → A → ℕ → A
update f p v q = if q == p then v else f q

module _ {K : Type 0} where
  abbrev pub get : Cmd K (State K)
  get s = ok s s

  -- `if (cond) fatal_abort(...)`.
  abbrev pub abort_if : Bool → Fatal → Cmd K (Unit {0})
  abort_if c e s = if c then abort e else ok tt s

  abbrev pub set_hdr : Ptr → Header → Cmd K (Unit {0})
  set_hdr p h s = ok tt (record s { hdr = update s.hdr p h })

  abbrev pub set_ftr : Ptr → Footer → Cmd K (Unit {0})
  set_ftr p f s = ok tt (record s { ftr = update s.ftr p f })

  abbrev pub set_head : ℕ → Ptr → Cmd K (Unit {0})
  set_head i p s = ok tt (record s { heads = update s.heads i p })

  -- `sbrk(n)`.
  abbrev pub call_sbrk : Os K → ℕ → Cmd K (Option Ptr)
  call_sbrk os n s = ok (os.sbrk n s.kernel).0 (record s { kernel = (os.sbrk n s.kernel).1 })

-- The call returns, and what it returns and the state after it satisfy `P`.
abbrev pub Returns : {K A : Type 0} → (A → State K → Type 0) → Run K A → Type 0
Returns P (ok a s) = P a s
Returns P (abort e) = ⊥
Returns P out_of_fuel = ⊥

-- What such a call returns, and the state after it.
pub Returns-inv :
    {K A : Type 0} (P : A → State K → Type 0) (r : Run K A)
    → Returns P r
    → (a : A) × (s : State K) × (r ≡ ok a s) × P a s
Returns-inv P (ok a s) p = (a, s, refl, p)
Returns-inv P (abort e) p = absurd p
Returns-inv P out_of_fuel p = absurd p
