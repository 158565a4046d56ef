-- ===== src/Alloc/Malloc.antt =====
-- `my_malloc` of src/allocator/allocator.c.
use linux_dynamic_memory_all.Prelude.{ℕ, ◌+◌, ◌-◌, Bool, true, false, Option, none, some}
use linux_dynamic_memory_all.Prelude.Tests.{ltb, leb, ◌==◌, if◌then◌else◌}
use linux_dynamic_memory_all.Memory.{
  Ptr, null, size_max, alloc_magic_header, mmap_threshold, header_size, Os, Cmd, pure, ◌>>=◌, ◌>>◌,
  get, set_hdr, call_sbrk,
}
use linux_dynamic_memory_all.FreeList.{load, free_list_insert, free_list_find_fit}
use linux_dynamic_memory_all.Alloc.{
  total_size_of, min_split, enomem, add_size, set_errno, set_stats, count_allocated, set_bounds,
  write_footer, write_remainder, set_block_size, ensure_break_aligned,
}

-- A pointer that a failed `sbrk` returns is (void *)-1.
abbrev pub or_failure : Option Ptr → Ptr
or_failure none = size_max
or_failure (some p) = p

module _ {K : Type 0} where
  -- `errno = ENOMEM; return NULL;`.
  abbrev pub out_of_memory : Cmd K Ptr
  out_of_memory = set_errno enomem >> pure null

  -- The end of `my_malloc`: the block is in use, with its footer, and counted.
  unfoldable pub hand_out : Ptr → ℕ → Cmd K Ptr
  hand_out block size = do
    b ← load block
    set_hdr block (record b { is_free = 0; requested_size = size })
    write_footer block b.block_size
    count_allocated size
    pure (block + header_size)

  -- The block that `mmap` returned.
  unfoldable pub hand_out_mapping : ℕ → ℕ → Option Ptr → Cmd K Ptr
  hand_out_mapping size total_size none = out_of_memory
  hand_out_mapping size total_size (some header) = do
    h ← load header
    set_hdr header (record h {
      magic_header = alloc_magic_header;
      is_free = 0;
      requested_size = size;
      block_size = total_size;
      is_mmap = 1;
      next = null;
      prev = null;
    })
    write_footer header total_size
    count_allocated size
    s ← get
    set_stats (record (s.stats) { mmap_allocations = add_size s.stats.mmap_allocations 1 })
    pure (header + header_size)

  -- A block from the free lists keeps `total_size` bytes if the rest makes a block of its own.
  unfoldable pub split_block : Ptr → ℕ → Cmd K (Unit {0})
  split_block block total_size = do
    b ← load block
    if leb (total_size + min_split) b.block_size
        then (do
          set_block_size block total_size
          write_remainder (block + total_size) (b.block_size - total_size)
          write_footer (block + total_size) (b.block_size - total_size)
          free_list_insert (block + total_size))
        else pure tt

  -- The header of a block that `sbrk` returned.
  unfoldable pub write_new_block : Ptr → ℕ → Cmd K (Unit {0})
  write_new_block block total_size = do
    h ← load block
    set_hdr block (record h {
      magic_header = alloc_magic_header;
      block_size = total_size;
      is_mmap = 0;
      next = null;
      prev = null;
    })

  module _ (os : Os K) where
    abbrev pub call_mmap : ℕ → Cmd K (Option Ptr)
    call_mmap n s = pure ((os.mmap n s.kernel).0) (record s { kernel = (os.mmap n s.kernel).1 })

    -- `initial_break = cur`, unless `sbrk(0)` failed.
    abbrev pub start_heap : Option Ptr → Cmd K (Unit {0})
    start_heap none = pure tt
    start_heap (some cur) = get >>= λ s. set_bounds s.heap_start cur s.last_allocator_break

    -- The first block of the heap sets `initial_break`; `false` if the break cannot be aligned.
    unfoldable pub ensure_initial_break : Cmd K Bool
    unfolding ensure_break_aligned
    ensure_initial_break = do
      s ← get
      if s.initial_break == null
          then (do
            aligned ← ensure_break_aligned os
            if aligned then (do cur ← call_sbrk os 0; start_heap cur; pure true) else pure false)
          else pure true

    -- A new block at the old break.
    unfoldable pub use_new_block : ℕ → Option Ptr → Cmd K (Option Ptr)
    unfolding write_new_block
    use_new_block total_size none = set_errno enomem >> pure none
    use_new_block total_size (some block) = do
      write_new_block block total_size
      end ← call_sbrk os 0
      s ← get
      set_bounds s.heap_start s.initial_break (or_failure end)
      set_stats (record (s.stats) {
        current_heap_size = add_size s.stats.current_heap_size total_size;
        sbrk_allocations = add_size s.stats.sbrk_allocations 1;
      })
      pure (some block)

    -- The heap grows by one block; `none` if it cannot.
    unfoldable pub grow_heap : ℕ → Cmd K (Option Ptr)
    unfolding ensure_initial_break ensure_break_aligned use_new_block
    grow_heap total_size = do
      started ← ensure_initial_break
      if started
          then (do
            s ← get
            (if s.heap_start == null
                then set_bounds s.initial_break s.initial_break s.last_allocator_break
                else pure tt)
            aligned ← ensure_break_aligned os
            if aligned
                then (do heap_break ← call_sbrk os total_size; use_new_block total_size heap_break)
                else set_errno enomem >> pure none)
          else set_errno enomem >> pure none

    abbrev pub hand_out_new : ℕ → Option Ptr → Cmd K Ptr
    hand_out_new size none = pure null
    hand_out_new size (some block) = hand_out block size

    -- A request below MMAP_THRESHOLD.
    unfoldable pub malloc_heap : ℕ → ℕ → ℕ → Cmd K Ptr
    unfolding grow_heap split_block hand_out
    malloc_heap fuel size total_size = do
      block ← free_list_find_fit os fuel total_size
      if block == null
          then (do new ← grow_heap total_size; hand_out_new size new)
          else (do split_block block total_size; hand_out block size)

    unfoldable pub my_malloc : ℕ → ℕ → Cmd K Ptr
    unfolding malloc_heap hand_out_mapping
    my_malloc fuel size =
        if size == 0
        then pure null
        else if ltb (size_max - 1024) size
        then out_of_memory
        else if leb mmap_threshold (total_size_of size)
        then (do
          header ← call_mmap (total_size_of size)
          hand_out_mapping size (total_size_of size) header)
        else malloc_heap fuel size (total_size_of size)
