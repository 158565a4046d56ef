-- ===== src/Alloc.antt =====
-- src/allocator/allocator.c. Each function is one critical section of `alloc_mutex` (two for the
-- relocations of `my_realloc`), modelled as a sequential command; the messages of LOG_ERROR are not
-- modelled. `fuel` bounds the loops over lists and over the heap.
pub mod Tests
pub mod Carve
pub mod Asked
pub mod Cut
pub mod Checks
pub mod Coalesce
pub mod Expand
pub mod Free
pub mod FreeLaws
pub mod Grow
pub mod Inv
pub mod Layout
pub mod Loose
pub mod Malloc
pub mod MallocLaws
pub mod Merge
pub mod Realloc
pub mod Represented
pub mod RefineNew
pub mod RefineHeld
pub mod Refine
pub mod ReallocLaws
pub mod Resize
pub mod Relocate
pub mod Session
pub mod Shrink
pub mod Store
mod SessionTests
pub mod Take
pub mod Verify
pub mod Verified
use linux_dynamic_memory_all.Prelude.{
  ℕ, zero, suc, ◌+◌, ◌-◌, ◌*◌, ◌/◌, ◌%◌, Bool, true, false, not, ◌&&◌, ◌||◌, Option, none, some,
}
use linux_dynamic_memory_all.Prelude.Tests.{ltb, leb, ◌==◌, if◌then◌else◌}
use linux_dynamic_memory_all.Memory.{
  Ptr, null, size_max, size_mod, alloc_magic_header, alloc_magic_footer, mmap_threshold, alignment,
  header_size, footer_size, overhead, Os, State, Stats, Header, Footer, Fatal, header_canary,
  invalid_block_size, exceeds_heap, invalid_mmap_size, footer_canary, double_free, Cmd, out_of_fuel,
  pure, ◌>>=◌, ◌>>◌, get, abort_if, set_hdr, set_ftr, call_sbrk,
}
use linux_dynamic_memory_all.FreeList.{
  exceeds_break, footer_at, load, footer_matches, free_list_reset, free_list_insert,
  free_list_remove, free_list_find_fit, free_list_verify_integrity,
}

-- `ALIGN(size)` of include/common.h. `size` is at most SIZE_MAX - 15, so the sum does not wrap.
abbrev pub align : ℕ → ℕ
align size = (size + (alignment - 1)) / alignment * alignment

-- `sizeof(block_header_t) + ALIGN(size) + sizeof(block_footer_t)`.
abbrev pub total_size_of : ℕ → ℕ
total_size_of size = header_size + align size + footer_size

-- `min_split`.
abbrev pub min_split : ℕ
min_split = header_size + footer_size + 16

-- ENOMEM.
abbrev pub enomem : ℕ
enomem = 12

abbrev pub zero_stats : Stats
zero_stats = record {
  total_allocated = 0;
  total_freed = 0;
  current_heap_size = 0;
  mmap_allocations = 0;
  sbrk_allocations = 0;
}

-- `size_t` addition.
abbrev pub add_size : ℕ → ℕ → ℕ
add_size a b = (a + b) % size_mod

module _ {K : Type 0} where
  abbrev pub set_errno : ℕ → Cmd K (Unit {0})
  set_errno e s = pure tt (record s { errno = e })

  abbrev pub set_stats : Stats → Cmd K (Unit {0})
  set_stats st s = pure tt (record s { stats = st })

  -- `total_allocated += n`.
  abbrev pub count_allocated : ℕ → Cmd K (Unit {0})
  count_allocated n = get >>= λ s.
      set_stats (record (s.stats) { total_allocated = add_size s.stats.total_allocated n })

  -- `total_freed += n`.
  abbrev pub count_freed : ℕ → Cmd K (Unit {0})
  count_freed n =
      get >>= λ s. set_stats (record (s.stats) { total_freed = add_size s.stats.total_freed n })

  abbrev pub set_bounds : Ptr → Ptr → Ptr → Cmd K (Unit {0})
  set_bounds start initial last s =
      pure tt
        (record s { heap_start = start; initial_break = initial; last_allocator_break = last })

  -- The footer of a block of `size` bytes at `block`.
  abbrev pub write_footer : Ptr → ℕ → Cmd K (Unit {0})
  write_footer block size =
      set_ftr (footer_at block size)
        (record { magic_footer = alloc_magic_footer; block_size = size })

  -- The header of the free block that a split leaves; `requested_size` is not written.
  abbrev pub write_remainder : Ptr → ℕ → Cmd K (Unit {0})
  write_remainder p size = do
    h ← load p
    set_hdr p (record h {
      magic_header = alloc_magic_header;
      block_size = size;
      is_free = 1;
      is_mmap = 0;
      next = null;
      prev = null;
    })

  abbrev pub set_block_size : Ptr → ℕ → Cmd K (Unit {0})
  set_block_size p n = do h ← load p; set_hdr p (record h { block_size = n })

  module _ (os : Os K) where
    -- The padding of `ensure_break_aligned`, once `sbrk(0)` has returned `cur_brk`.
    abbrev pub pad_break : Option Ptr → Cmd K Bool
    pad_break none = pure false
    pad_break (some cur_brk) = if cur_brk % alignment == 0 then pure true else (do
      r ← call_sbrk os (alignment - cur_brk % alignment)
      pure (elim r [ none ↦ false | some p ↦ true ]))

    unfoldable pub ensure_break_aligned : Cmd K Bool
    ensure_break_aligned = do cur ← call_sbrk os 0; pad_break cur

    -- The end of `allocator_init`, once `sbrk(0)` has returned `cur`.
    abbrev pub init_bounds : Option Ptr → Cmd K (Unit {0})
    init_bounds none = pure tt
    init_bounds (some cur) = get >>= λ s.
        if s.initial_break == null
        then set_bounds cur cur cur
        else set_bounds s.initial_break s.initial_break cur

    unfoldable pub allocator_init : Cmd K (Unit {0})
    unfolding free_list_reset ensure_break_aligned
    allocator_init = do
      set_stats zero_stats
      free_list_reset
      aligned ← ensure_break_aligned
      if aligned then (do cur ← call_sbrk os 0; init_bounds cur) else pure tt

    abbrev pub call_brk : Ptr → Cmd K Bool
    call_brk p s = pure ((os.brk p s.kernel).0) (record s { kernel = (os.brk p s.kernel).1 })

    -- `cur_brk == last_allocator_break`, where (void *)-1 is SIZE_MAX.
    abbrev pub break_is : Option Ptr → Ptr → Bool
    break_is none p = p == size_max
    break_is (some q) p = q == p

    unfoldable pub allocator_destroy : Cmd K (Unit {0})
    unfolding free_list_reset
    allocator_destroy = do
      set_stats zero_stats
      free_list_reset
      s ← get
      if s.initial_break == null then set_bounds null null null else (do
        cur_brk ← call_sbrk os 0
        if break_is cur_brk s.last_allocator_break
            then (do
              done ← call_brk s.initial_break
              if done
                  then set_bounds null null null
                  else set_bounds s.initial_break s.initial_break s.last_allocator_break)
            else set_bounds null null null)

    unfoldable pub allocator_get_stats : Cmd K Stats
    allocator_get_stats = do s ← get; pure s.stats

    -- The checks of `allocator_verify_integrity` on the block at `curr`, below `heap_end`.
    unfoldable pub heap_block_ok : State K → Ptr → Ptr → Bool
    heap_block_ok s curr heap_end =
        not (ltb (heap_end - curr) overhead)
        && curr % alignment == 0
        && (s.hdr curr).magic_header == alloc_magic_header
        && not (ltb (s.hdr curr).block_size overhead)
        && (s.hdr curr).block_size % alignment == 0
        && not (ltb (heap_end - curr) (s.hdr curr).block_size)
        && footer_matches s curr (s.hdr curr).block_size

    -- The `while (curr < heap_end)` loop; `false` is the return of -1.
    unfoldable pub verify_heap : ℕ → Ptr → Ptr → Cmd K Bool
    unfolding heap_block_ok
    verify_heap zero curr heap_end = λ _. out_of_fuel
    verify_heap (suc fuel) curr heap_end =
        if ltb curr heap_end
        then (do
          s ← get
          let rest = verify_heap fuel (curr + (s.hdr curr).block_size) heap_end
          if heap_block_ok s curr heap_end then rest else pure false)
        else pure true

    abbrev pub verify_from_start : ℕ → Option Ptr → Cmd K Bool
    verify_from_start fuel none = pure true
    verify_from_start fuel (some heap_end) = get >>= λ s.
        if not (s.heap_start == null)
          && not (s.heap_start == size_max)
          && not (heap_end == null)
          && leb s.heap_start heap_end
        then verify_heap fuel s.heap_start heap_end
        else pure true

    unfoldable pub allocator_verify_integrity : ℕ → Cmd K Bool
    unfolding free_list_verify_integrity verify_heap
    allocator_verify_integrity fuel = do
      res ← free_list_verify_integrity os fuel
      if res then (do heap_end ← call_sbrk os 0; verify_from_start fuel heap_end) else pure false

  -- `heap_end` is `none` for (void *)-1.
  unfoldable pub is_adjacent_free_block : State K → Ptr → Option Ptr → Bool
  is_adjacent_free_block s block none = false
  is_adjacent_free_block s block (some heap_end) =
      not (block == null || s.heap_start == null)
      && not (ltb block s.heap_start || leb heap_end block)
      && not (ltb (heap_end - block) overhead)
      && block % alignment == 0
      && (s.hdr block).magic_header == alloc_magic_header
      && (s.hdr block).is_mmap == 0
      && not ((s.hdr block).is_free == 0)
      && not (ltb (s.hdr block).block_size overhead)
      && (s.hdr block).block_size % alignment == 0
      && not (ltb (heap_end - block) (s.hdr block).block_size)
      && footer_matches s block (s.hdr block).block_size
