-- ===== src/Shim.antt =====
-- src/allocator/preload_shim.c: the state of the shim that puts the allocator in front of malloc,
-- its commands, the bootstrap buffer, and the header of an aligned block.
--
-- `aligned_header_t` lies on the first 24 bytes of a `block_header_t`: its magic, padding, offset and
-- requested_size are the fields magic_header, is_free, requested_size and block_size of that.
pub mod Calls
pub mod Laws
mod Tests
use linux_dynamic_memory_all.Prelude.{
  ℕ, zero, suc, ◌+◌, ◌-◌, ◌*◌, ◌/◌, ◌%◌, Bool, true, false, not, ◌&&◌, ◌||◌, Option, none, some,
}
use linux_dynamic_memory_all.Prelude.Tests.{ltb, leb, ◌==◌, if◌then◌else◌}
use linux_dynamic_memory_all.Memory.{
  Ptr, null, size_mod, alloc_magic_header, header_size, State, Fatal, Run, ok, abort, out_of_fuel,
  update,
}
use linux_dynamic_memory_all.Alloc.{align}

-- BOOTSTRAP_BUF_SIZE.
abbrev pub bootstrap_buf_size : ℕ
bootstrap_buf_size = 128 * 1024

abbrev pub bootstrap_magic : ℕ
bootstrap_magic = 0xFEEDC0DECAFEFACE

abbrev pub aligned_block_magic : ℕ
aligned_block_magic = 0xA116ED01

-- sizeof(bootstrap_header_t).
abbrev pub bootstrap_header_size : ℕ
bootstrap_header_size = 16

-- sizeof(void *).
abbrev pub pointer_size : ℕ
pointer_size = 8

-- `bootstrap_header_t`.
pub record BootstrapHeader : Type 0 where
  pub magic : ℕ
  pub size : ℕ

-- The allocator's state, the headers in the bootstrap buffer, and the statics of the shim, for one
-- thread.
pub record Shim (K : Type 0) : Type 0 where
  pub memory : State K
  pub bootstrap : Ptr → BootstrapHeader
  pub bootstrap_offset : ℕ
  pub in_allocator : Bool

-- How a call of the shim ends.
pub data Outcome (K : Type 0) (A : Type 0) : Type 0 where
  done : A → Shim K → Outcome K A
  aborted : Fatal → Outcome K A
  no_fuel : Outcome K A

abbrev pub Call : Type 0 → Type 0 → Type 0
Call K A = Shim K → Outcome K A

module _ {K A : Type 0} where
  abbrev pub return : A → Call K A
  return a s = done a s

  -- A run of the allocator, within the shim's state.
  abbrev pub from_run : Shim K → Run K A → Outcome K A
  from_run s (ok a m) = done a (record s { memory = m })
  from_run s (abort e) = aborted e
  from_run s out_of_fuel = no_fuel

  abbrev pub in_memory : (State K → Run K A) → Call K A
  in_memory c s = from_run s (c s.memory)

module _ {K A B : Type 0} where
  abbrev pub after : Outcome K A → (A → Call K B) → Outcome K B
  after (done a s) f = f a s
  after (aborted e) f = aborted e
  after no_fuel f = no_fuel

  infixl 5 ◌>>=◌ ◌>>◌
  abbrev pub ◌>>=◌ : Call K A → (A → Call K B) → Call K B
  m >>= f = λ s. after (m s) f

  abbrev pub ◌>>◌ : Call K A → Call K B → Call K B
  m >> n = m >>= λ _. n

-- The call ends with a result and a state that satisfy `P`.
abbrev pub Finishes : {K A : Type 0} (P : A → Shim K → Type 0) → Outcome K A → Type 0
Finishes P (done a s) = P a s
Finishes P (aborted e) = ⊥
Finishes P no_fuel = ⊥

-- `bootstrap_buf` begins at `buf`.
abbrev pub is_bootstrap_ptr : Ptr → Ptr → Bool
is_bootstrap_ptr buf ptr = leb buf ptr && ltb ptr (buf + bootstrap_buf_size)

module _ {K : Type 0} where
  abbrev pub get : Call K (Shim K)
  get s = done s s

  abbrev pub set_in_allocator : Bool → Call K (Unit {0})
  set_in_allocator b s = done tt (record s { in_allocator = b })

  -- `bootstrap_offset` grows also when the buffer is full.
  unfoldable pub bootstrap_alloc : Ptr → ℕ → Call K Ptr
  bootstrap_alloc buf size s =
      let chunk_total = bootstrap_header_size + align size in
      let prev_offset = s.bootstrap_offset in
      let s' = record s { bootstrap_offset = (prev_offset + chunk_total) % size_mod } in
      if ltb (bootstrap_buf_size - bootstrap_header_size) size
      then done null s
      else if ltb bootstrap_buf_size ((prev_offset + chunk_total) % size_mod)
      then done null s'
      else done (buf + prev_offset + bootstrap_header_size) (record s' {
        bootstrap =
            update s.bootstrap (buf + prev_offset)
              (record { magic = bootstrap_magic; size = size });
      })

  -- The real header and the request of a pointer that an aligned allocation returned.
  unfoldable pub is_aligned_ptr : State K → Ptr → Option (Ptr × ℕ)
  is_aligned_ptr m ptr =
      let ah = m.hdr (ptr - header_size) in
      let offset = ah.requested_size in
      if not (ptr == null || ltb ptr (header_size + pointer_size))
        && ptr % pointer_size == 0
        && ah.magic_header == aligned_block_magic
        && leb (header_size + pointer_size) offset
        && leb offset ptr
        && (m.hdr (ptr - offset)).magic_header == alloc_magic_header
      then some (ptr - offset, ah.block_size)
      else none
