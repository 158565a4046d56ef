-- ===== src/Shim/Calls.antt =====
-- The functions of src/allocator/preload_shim.c. `page_size` is what sysconf(_SC_PAGESIZE) returns,
-- 0 for a negative value.
use linux_dynamic_memory_all.Prelude.{
  ℕ, ◌+◌, ◌-◌, ◌*◌, ◌/◌, ◌%◌, Bool, true, false, not, ◌&&◌, ◌||◌, none, some,
}
use linux_dynamic_memory_all.Prelude.Tests.{ltb, leb, ◌==◌, if◌then◌else◌}
use linux_dynamic_memory_all.Memory.{
  Ptr, null, size_max, size_mod, alloc_magic_header, alignment, header_size, Header, Os, set_hdr,
}
use linux_dynamic_memory_all.Alloc.{enomem, set_errno}
use linux_dynamic_memory_all.Alloc.Malloc.{my_malloc}
use linux_dynamic_memory_all.Alloc.Free.{my_free}
use linux_dynamic_memory_all.Alloc.Realloc.{my_calloc, my_realloc, memset, memcpy, lesser}
use linux_dynamic_memory_all.Shim.{
  bootstrap_magic, aligned_block_magic, bootstrap_header_size, pointer_size, Call, return,
  in_memory, ◌>>=◌, ◌>>◌, get, set_in_allocator, is_bootstrap_ptr, bootstrap_alloc, is_aligned_ptr,
}
use linux_dynamic_memory_all.Prelude.Bits.{bit_and}

-- EINVAL.
abbrev pub einval : ℕ
einval = 22

-- `(raw + alignment - 1) & ~(alignment - 1)`.
unfoldable pub align_up : ℕ → ℕ → ℕ
align_up raw align = bit_and 64 ((raw + align - 1) % size_mod) (size_max - (align - 1))

-- `(alignment & (alignment - 1)) == 0`.
unfoldable pub no_two_bits : ℕ → Bool
no_two_bits align = bit_and 64 align (align - 1) == 0

module _ {K : Type 0} where
  abbrev pub fail_with : ℕ → Call K Ptr
  fail_with e = in_memory (set_errno e) >> return null

  abbrev pub write_header : Ptr → Header → Call K (Unit {0})
  write_header p h = in_memory (set_hdr p h)

  -- The address that an aligned allocation returns, with its header written.
  unfoldable pub write_aligned : Ptr → ℕ → ℕ → Call K Ptr
  write_aligned base align req_size = do
    let aligned_ptr = align_up (base + header_size) align
    s ← get
    write_header (aligned_ptr - header_size) (record (s.memory.hdr (aligned_ptr - header_size)) {
      magic_header = aligned_block_magic;
      is_free = 0;
      requested_size = aligned_ptr - (base - header_size);
      block_size = req_size;
    })
    return aligned_ptr

  module _ (os : Os K) (buf : Ptr) (fuel : ℕ) where
    -- A call of the allocator with `in_allocator` set.
    abbrev pub guarded : Call K Ptr → Call K Ptr
    guarded c = do set_in_allocator true; p ← c; set_in_allocator false; return p

    unfoldable pub malloc : ℕ → Call K Ptr
    malloc size = do
      s ← get
      if s.in_allocator
          then bootstrap_alloc buf size
          else guarded (in_memory (my_malloc os fuel size))

    unfoldable pub aligned_alloc_internal : ℕ → ℕ → ℕ → Call K Ptr
    unfolding write_aligned malloc
    aligned_alloc_internal align alloc_size req_size =
        if ltb (size_max - align - header_size) alloc_size then fail_with enomem else (do
          base ← malloc (alloc_size + align + header_size)
          if base == null then return null else write_aligned base align req_size)

    unfoldable pub free : Ptr → Call K (Unit {0})
    free ptr = if ptr == null || is_bootstrap_ptr buf ptr then return tt else do
      s ← get
      elim (is_aligned_ptr s.memory ptr) [
        | none ↦ in_memory (my_free os ptr)
        | some (real_hdr, size) ↦ (do
          write_header (ptr - header_size)
              (record (s.memory.hdr (ptr - header_size)) { magic_header = 0 })
          if is_bootstrap_ptr buf (real_hdr + header_size)
              then return tt
              else in_memory (my_free os (real_hdr + header_size)))
      ]

    unfoldable pub calloc : ℕ → ℕ → Call K Ptr
    calloc nmemb size = do
      s ← get
      if s.in_allocator
          then (if not (nmemb == 0) && ltb (size_max / nmemb) size then fail_with enomem else (do
            p ← bootstrap_alloc buf (nmemb * size % size_mod)
            (if p == null then return tt else in_memory (memset p 0 (nmemb * size % size_mod)))
            return p))
          else guarded (in_memory (my_calloc os fuel nmemb size))

    -- `if (new_p && copy_size > 0) memcpy(...)`.
    abbrev pub copy_to : Ptr → Ptr → ℕ → Call K (Unit {0})
    copy_to new_p ptr copy_size =
        if new_p == null || copy_size == 0
        then return tt
        else in_memory (memcpy new_p ptr copy_size)

    -- A pointer into the bootstrap buffer is copied out, and its memory is not used again.
    unfoldable pub realloc_bootstrap : Ptr → ℕ → Call K Ptr
    unfolding malloc
    realloc_bootstrap ptr size = if size == 0 then return null else do
      s ← get
      let hdr = s.bootstrap (ptr - bootstrap_header_size)
      new_p ← malloc size
      copy_to new_p ptr (if hdr.magic == bootstrap_magic then lesser hdr.size size else 0)
      return new_p

    unfoldable pub realloc_aligned : Ptr → ℕ → ℕ → Call K Ptr
    unfolding malloc free
    realloc_aligned ptr orig_req_size size = if size == 0 then free ptr >> return null else do
      new_p ← malloc size
      if new_p == null
          then return null
          else (do copy_to new_p ptr (lesser orig_req_size size); free ptr; return new_p)

    unfoldable pub realloc : Ptr → ℕ → Call K Ptr
    unfolding realloc_bootstrap realloc_aligned
    realloc ptr size =
        if ptr == null
        then malloc size
        else if is_bootstrap_ptr buf ptr
        then realloc_bootstrap ptr size
        else (do
          s ← get
          elim (is_aligned_ptr s.memory ptr) [
            | some (real_hdr, req) ↦ realloc_aligned ptr req size
            | none ↦
                if s.in_allocator
                then return null
                else guarded (in_memory (my_realloc os fuel ptr size))
          ])

    -- The error code, and what `*memptr` is set to on success.
    unfoldable pub posix_memalign : ℕ → ℕ → Call K (ℕ × Ptr)
    unfolding aligned_alloc_internal
    posix_memalign align size =
        if ltb align pointer_size || not (no_two_bits align) then return (einval, null) else (do
          let alloc_size = if size == 0 then align else size
          p ←
              (if leb align alignment
                then malloc alloc_size
                else aligned_alloc_internal align alloc_size size)
          if p == null then return (enomem, null) else return (0, p))

    unfoldable pub aligned_alloc : ℕ → ℕ → Call K Ptr
    unfolding aligned_alloc_internal
    aligned_alloc align size =
        if align == 0 || not (no_two_bits align) || not (size % align == 0)
        then fail_with einval
        else if size == 0
        then return null
        else if leb align alignment
        then malloc size
        else aligned_alloc_internal align size size

    unfoldable pub reallocarray : Ptr → ℕ → ℕ → Call K Ptr
    unfolding realloc
    reallocarray ptr nmemb size =
        if not (nmemb == 0) && ltb (size_max / nmemb) size
        then fail_with enomem
        else realloc ptr (nmemb * size % size_mod)

    unfoldable pub malloc_usable_size : Ptr → Call K ℕ
    malloc_usable_size ptr = if ptr == null then return 0 else do
      s ← get
      let hdr = s.bootstrap (ptr - bootstrap_header_size)
      let block = s.memory.hdr (ptr - header_size)
      if is_bootstrap_ptr buf ptr
          then return (if hdr.magic == bootstrap_magic then hdr.size else 0)
          else elim (is_aligned_ptr s.memory ptr) [
            | some (real_hdr, req_size) ↦ return req_size
            | none ↦ return (
                if leb header_size ptr && block.magic_header == alloc_magic_header
                then block.requested_size
                else 0)
          ]

    -- A failure of `posix_memalign` is stored in `errno`.
    abbrev pub or_errno : ℕ × Ptr → Call K Ptr
    or_errno (ret, ptr) = if ret == 0 then return ptr else fail_with ret

    unfoldable pub memalign : ℕ → ℕ → Call K Ptr
    unfolding posix_memalign
    memalign align size = do
      r ← posix_memalign (if ltb align pointer_size then pointer_size else align) size
      or_errno r

    abbrev pub page_of : ℕ → ℕ
    page_of page_size = if page_size == 0 then 4096 else page_size

    unfoldable pub valloc : ℕ → ℕ → Call K Ptr
    unfolding posix_memalign
    valloc page_size size = do r ← posix_memalign (page_of page_size) size; or_errno r

    unfoldable pub pvalloc : ℕ → ℕ → Call K Ptr
    unfolding posix_memalign
    pvalloc page_size size =
        let ps = page_of page_size in
        if not (size == 0) && ltb (size_max - ps) size then fail_with enomem else (do
          r ← posix_memalign ps (if size == 0 then ps else (size + ps - 1) / ps * ps)
          or_errno r)
