-- ===== src/Alloc/Free.antt =====
-- `my_free` of src/allocator/allocator.c. The sums of block sizes are of blocks that the code has
-- found below the break, so they do not wrap.
use linux_dynamic_memory_all.Prelude.{
  ℕ, ◌+◌, ◌-◌, ◌%◌, Bool, true, not, ◌&&◌, ◌||◌, Option, none, some,
}
use linux_dynamic_memory_all.Prelude.Tests.{ltb, leb, ◌==◌, if◌then◌else◌}
use linux_dynamic_memory_all.Memory.{
  Ptr, null, size_max, alloc_magic_header, alloc_magic_footer, mmap_threshold, alignment,
  header_size, footer_size, overhead, Os, State, header_canary, invalid_block_size, exceeds_heap,
  invalid_mmap_size, footer_canary, double_free, Cmd, pure, ◌>>=◌, ◌>>◌, get, abort_if, set_hdr,
  call_sbrk,
}
use linux_dynamic_memory_all.FreeList.{load, footer_matches, free_list_insert, free_list_remove}
use linux_dynamic_memory_all.Alloc.{
  write_footer, set_block_size, is_adjacent_free_block, count_freed,
}

module _ {K : Type 0} where
  -- The bounds test of a block of the heap, when `sbrk(0)` has returned `heap_end`.
  abbrev pub outside_heap : State K → Ptr → ℕ → Option Ptr → Bool
  outside_heap s header size none = true
  outside_heap s header size (some heap_end) =
      s.heap_start == null
      || ltb header s.heap_start
      || leb heap_end header
      || ltb (heap_end - header) size

  module _ (os : Os K) where
    -- The bounds test of a block of the heap, or of a mapping.
    unfoldable pub check_bounds : Ptr → Cmd K (Unit {0})
    check_bounds header = do
      h ← load header
      if h.is_mmap == 0
          then (do
            heap_end ← call_sbrk os 0
            s ← get
            abort_if (outside_heap s header h.block_size heap_end) exceeds_heap)
          else abort_if (ltb (size_max - h.block_size) header || ltb h.block_size mmap_threshold)
              invalid_mmap_size

    -- The checks on the header and footer of a block that the caller hands back.
    unfoldable pub check_block : Ptr → Cmd K (Unit {0})
    unfolding check_bounds
    check_block header = do
      h ← load header
      abort_if (not (h.magic_header == alloc_magic_header)) header_canary
      abort_if (ltb h.block_size overhead) invalid_block_size
      check_bounds header
      s ← get
      abort_if (not (footer_matches s header h.block_size)) footer_canary
      abort_if (not (h.is_free == 0)) double_free

    abbrev pub call_munmap : Ptr → ℕ → Cmd K Bool
    call_munmap p n s =
        pure ((os.munmap p n s.kernel).0) (record s { kernel = (os.munmap p n s.kernel).1 })

    -- A mapping goes back to the system; a failure of `munmap` is only logged.
    unfoldable pub free_mapping : Ptr → Cmd K (Unit {0})
    free_mapping header = do
      h ← load header
      count_freed h.requested_size
      done ← call_munmap header h.block_size
      pure tt

    -- `header` takes in the free block behind it.
    unfoldable pub coalesce_next : Ptr → Option Ptr → Cmd K (Unit {0})
    unfolding is_adjacent_free_block
    coalesce_next header heap_end = do
      s ← get
      let next_header = header + (s.hdr header).block_size
      if is_adjacent_free_block s next_header heap_end
          then (do
            free_list_remove os next_header
            s' ← get
            set_block_size header ((s'.hdr header).block_size + (s'.hdr next_header).block_size)
            write_footer header ((s'.hdr header).block_size + (s'.hdr next_header).block_size))
          else pure tt

    -- The block that ends at `header`, by its footer.
    abbrev pub prev_of : State K → Ptr → Ptr
    prev_of s header = header - (s.ftr (header - footer_size)).block_size

    -- The tests on the footer before `header` and on the block that it names.
    unfoldable pub prev_is_free : State K → Ptr → Bool
    prev_is_free s header =
        not (s.heap_start == null)
        && leb (s.heap_start + overhead) header
        && (s.ftr (header - footer_size)).magic_footer == alloc_magic_footer
        && leb overhead (s.ftr (header - footer_size)).block_size
        && leb (s.ftr (header - footer_size)).block_size (header - s.heap_start)
        && (s.ftr (header - footer_size)).block_size % alignment == 0
        && leb s.heap_start (prev_of s header)
        && prev_of s header % alignment == 0
        && (s.hdr (prev_of s header)).magic_header == alloc_magic_header
        && (s.hdr (prev_of s header)).block_size == (s.ftr (header - footer_size)).block_size
        && (s.hdr (prev_of s header)).is_mmap == 0
        && not ((s.hdr (prev_of s header)).is_free == 0)

    -- The free block before `header` takes it in; the result is the block that holds it then.
    unfoldable pub coalesce_prev : Ptr → Cmd K Ptr
    unfolding prev_is_free
    coalesce_prev header = do
      s ← get
      let prev_header = prev_of s header
      if prev_is_free s header
          then (do
            free_list_remove os prev_header
            s' ← get
            set_block_size prev_header
                ((s'.hdr prev_header).block_size + (s'.hdr header).block_size)
            write_footer prev_header ((s'.hdr prev_header).block_size + (s'.hdr header).block_size)
            pure prev_header)
          else pure header

    -- A block of the heap is marked free, merged with its free neighbours and put in its list.
    unfoldable pub free_block : Ptr → Cmd K (Unit {0})
    unfolding coalesce_next coalesce_prev
    free_block header = do
      h ← load header
      set_hdr header (record h { is_free = 1 })
      count_freed h.requested_size
      heap_end ← call_sbrk os 0
      coalesce_next header heap_end
      merged ← coalesce_prev header
      free_list_insert merged

    unfoldable pub my_free : Ptr → Cmd K (Unit {0})
    unfolding check_block free_mapping free_block
    my_free ptr = if ptr == null then pure tt else do
      check_block (ptr - header_size)
      h ← load (ptr - header_size)
      if h.is_mmap == 0 then free_block (ptr - header_size) else free_mapping (ptr - header_size)
