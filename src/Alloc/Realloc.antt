-- ===== src/Alloc/Realloc.antt =====
-- `my_calloc` and `my_realloc` of src/allocator/allocator.c, with `memset` and `memcpy` on the bytes
-- of the memory. After a successful `mremap` the mapping has its header and bytes at the new address.
use linux_dynamic_memory_all.Prelude.{
  ℕ, ◌+◌, ◌-◌, ◌*◌, ◌/◌, ◌%◌, Bool, ◌&&◌, ◌||◌, Option, none, some,
}
use linux_dynamic_memory_all.Prelude.Tests.{ltb, leb, ◌==◌, if◌then◌else◌}
use linux_dynamic_memory_all.Memory.{
  Ptr, null, size_max, size_mod, mmap_threshold, header_size, Os, State, Cmd, pure, ◌>>=◌, ◌>>◌,
  get, set_hdr, call_sbrk, update,
}
use linux_dynamic_memory_all.FreeList.{load, free_list_insert, free_list_remove}
use linux_dynamic_memory_all.Alloc.{
  total_size_of, min_split, write_footer, write_remainder, set_block_size, is_adjacent_free_block,
  count_allocated, count_freed,
}
use linux_dynamic_memory_all.Alloc.Malloc.{out_of_memory, my_malloc}
use linux_dynamic_memory_all.Alloc.Free.{check_block, my_free}

-- The bytes `f` with the `n` bytes from `p` replaced by those from `q` of `g`.
abbrev pub copied : (Ptr → ℕ) → Ptr → Ptr → ℕ → Ptr → ℕ
copied f p q n a = if leb p a && ltb a (p + n) then f (q + (a - p)) else f a

abbrev pub filled : (Ptr → ℕ) → Ptr → ℕ → ℕ → Ptr → ℕ
filled f p v n a = if leb p a && ltb a (p + n) then v else f a

abbrev pub lesser : ℕ → ℕ → ℕ
lesser m n = if ltb m n then m else n

module _ {K : Type 0} where
  abbrev pub memset : Ptr → ℕ → ℕ → Cmd K (Unit {0})
  memset p v n s = pure tt (record s { bytes = filled s.bytes p v n })

  abbrev pub memcpy : Ptr → Ptr → ℕ → Cmd K (Unit {0})
  memcpy p q n s = pure tt (record s { bytes = copied s.bytes p q n })

  -- A change of the request is counted by the difference.
  unfoldable pub count_change : ℕ → ℕ → Cmd K (Unit {0})
  count_change size old =
      if ltb size old
      then count_freed (old - size)
      else if ltb old size
      then count_allocated (size - old)
      else pure tt

  abbrev pub set_requested : Ptr → ℕ → Cmd K (Unit {0})
  set_requested p n = do h ← load p; set_hdr p (record h { requested_size = n })

  module _ (os : Os K) where
    unfoldable pub my_calloc : ℕ → ℕ → ℕ → Cmd K Ptr
    unfolding my_malloc
    my_calloc fuel nmemb size =
        if nmemb == 0 || size == 0
        then pure null
        else if ltb (size_max / nmemb) size
        then out_of_memory
        else (do
          ptr ← my_malloc os fuel (nmemb * size % size_mod)
          if ptr == null then pure null else (do memset ptr 0 (nmemb * size % size_mod); pure ptr))

    -- The remainder takes in a free block behind it; the result is its size.
    unfoldable pub absorb_next : Ptr → ℕ → Option Ptr → Cmd K ℕ
    absorb_next remainder size heap_end = do
      s ← get
      let next = remainder + size
      if is_adjacent_free_block s next heap_end
          then (do
            free_list_remove os next
            n ← load next
            set_block_size remainder (size + n.block_size)
            pure (size + n.block_size))
          else pure size

    -- A block in use gives up all but `total` bytes.
    unfoldable pub trim_block : Ptr → ℕ → Option Ptr → Cmd K (Unit {0})
    unfolding absorb_next
    trim_block header total heap_end = do
      h ← load header
      set_block_size header total
      write_footer header total
      write_remainder (header + total) (h.block_size - total)
      size ← absorb_next (header + total) (h.block_size - total) heap_end
      write_footer (header + total) size
      free_list_insert (header + total)

    -- Path 1: the block has room.
    unfoldable pub resize_in_block : Ptr → ℕ → ℕ → Option Ptr → Cmd K Ptr
    unfolding trim_block count_change
    resize_in_block header size total heap_end = do
      h ← load header
      (if leb (total + min_split) h.block_size then trim_block header total heap_end else pure tt)
      count_change size h.requested_size
      set_requested header size
      pure (header + header_size)

    -- The block and the free block behind it have `combined` bytes, of which `total` are needed.
    unfoldable pub use_combined : Ptr → ℕ → ℕ → Cmd K (Unit {0})
    use_combined header total combined =
        if leb (total + min_split) combined
        then (do
          set_block_size header total
          write_footer header total
          write_remainder (header + total) (combined - total)
          write_footer (header + total) (combined - total)
          free_list_insert (header + total))
        else (do set_block_size header combined; write_footer header combined)

    -- Path 2: the block grows over the free block behind it.
    unfoldable pub expand_block : Ptr → ℕ → ℕ → Cmd K Ptr
    unfolding use_combined count_change
    expand_block header size total = do
      h ← load header
      free_list_remove os (header + h.block_size)
      h' ← load header
      next ← load (header + h.block_size)
      use_combined header total (h'.block_size + next.block_size)
      count_change size h.requested_size
      set_requested header size
      pure (header + header_size)

    -- Path 3: a new block, a copy, and the old block is freed.
    unfoldable pub relocate : ℕ → Ptr → ℕ → ℕ → Cmd K Ptr
    unfolding my_malloc my_free
    relocate fuel ptr old size = do
      new_ptr ← my_malloc os fuel size
      if new_ptr == null
          then pure null
          else (do memcpy new_ptr ptr (lesser old size); my_free os ptr; pure new_ptr)

    -- `header->block_size >= total_needed`, and the tests of path 2.
    abbrev pub can_expand : State K → Ptr → ℕ → Option Ptr → Bool
    can_expand s header total heap_end =
        let size = (s.hdr header).block_size in
        ltb total mmap_threshold
        && is_adjacent_free_block s (header + size) heap_end
        && leb total (size + (s.hdr (header + size)).block_size)

    unfoldable pub realloc_heap : ℕ → Ptr → ℕ → Cmd K Ptr
    unfolding resize_in_block expand_block relocate
    realloc_heap fuel header size = do
      heap_end ← call_sbrk os 0
      s ← get
      if leb (total_size_of size) (s.hdr header).block_size
          then resize_in_block header size (total_size_of size) heap_end
          else if can_expand s header (total_size_of size) heap_end
          then expand_block header size (total_size_of size)
          else relocate fuel (header + header_size) (s.hdr header).requested_size size

    -- `mremap` of the mapping at `header`; the memory moves with it.
    unfoldable pub call_mremap : Ptr → ℕ → Cmd K (Option Ptr)
    call_mremap header total s =
        let r = os.mremap header (s.hdr header).block_size total s.kernel in
        elim r.0 [
          | none ↦ pure none (record s { kernel = r.1 })
          | some new ↦ pure (some new) (record s {
            hdr = update s.hdr new (s.hdr header);
            bytes = copied s.bytes new header (lesser (s.hdr header).block_size total);
            kernel = r.1;
          })
        ]

    -- The end of the `mremap` path, or the relocation if there was no `mremap` or it failed.
    unfoldable pub use_remapped : ℕ → Ptr → ℕ → ℕ → Option Ptr → Cmd K Ptr
    unfolding relocate
    use_remapped fuel header old size none = relocate fuel (header + header_size) old size
    use_remapped fuel header old size (some new_header) = do
      n ← load new_header
      set_hdr new_header (record n { requested_size = size; block_size = total_size_of size })
      write_footer new_header (total_size_of size)
      count_allocated size
      count_freed old
      pure (new_header + header_size)

    unfoldable pub realloc_mapping : ℕ → Ptr → ℕ → Cmd K Ptr
    unfolding call_mremap use_remapped
    realloc_mapping fuel header size = do
      h ← load header
      if leb mmap_threshold (total_size_of size)
          then (do
            new ← call_mremap header (total_size_of size)
            use_remapped fuel header h.requested_size size new)
          else use_remapped fuel header h.requested_size size none

    unfoldable pub my_realloc : ℕ → Ptr → ℕ → Cmd K Ptr
    unfolding realloc_heap realloc_mapping my_malloc my_free check_block
    my_realloc fuel ptr size =
        if ptr == null
        then my_malloc os fuel size
        else if size == 0
        then (do my_free os ptr; pure null)
        else if ltb (size_max - 1024) size
        then out_of_memory
        else (do
          check_block os (ptr - header_size)
          h ← load (ptr - header_size)
          if h.is_mmap == 0
              then realloc_heap fuel (ptr - header_size) size
              else realloc_mapping fuel (ptr - header_size) size)
