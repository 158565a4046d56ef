-- ===== src/Alloc/Grow.antt =====
-- `my_malloc` of src/allocator/allocator.c extends the heap by a block at the break.
use linux_dynamic_memory_all.Prelude.{
  ℕ, ◌+◌, ◌%◌, ◌≡◌, ◌≤◌, ◌⊎◌, inl, inr, true, false, List, [], ◌∷◌, ◌++◌, arith, refl, ap,
}
use linux_dynamic_memory_all.Prelude.Tests.{◌==◌, ==→eq}
use linux_dynamic_memory_all.Prelude.Lists.{has}
use linux_dynamic_memory_all.Memory.{
  Ptr, null, alloc_magic_header, alignment, overhead, size_max, State, Os, update, ok,
}
use linux_dynamic_memory_all.Kernel.{IsOs}
use linux_dynamic_memory_all.FreeList.{footer_at}
use linux_dynamic_memory_all.FreeList.Inv.{IsFreeLists-frame, null_out}
use linux_dynamic_memory_all.Alloc.{add_size, ensure_break_aligned}
use linux_dynamic_memory_all.Alloc.Malloc.{grow_heap, use_new_block, ensure_initial_break}
use linux_dynamic_memory_all.Alloc.Layout.{inside, Tiles-grow, has-snoc}
use linux_dynamic_memory_all.Alloc.Inv.{size_in, IsHeap}
use linux_dynamic_memory_all.Alloc.Carve.{handed}

module _ {K : Type 0} where
  -- The state after `sbrk` has returned `p` and the new block is written, counted and handed out.
  abbrev pub grown : ℕ → ℕ → Ptr → K → State K → State K
  grown size total p k s = handed p size (record s {
    hdr = update s.hdr p (record (s.hdr p) {
      magic_header = alloc_magic_header;
      block_size = total;
      is_mmap = 0;
      next = null;
      prev = null;
    });
    last_allocator_break = p + total;
    stats = record (s.stats) {
      current_heap_size = add_size s.stats.current_heap_size total;
      sbrk_allocations = add_size s.stats.sbrk_allocations 1;
    };
    kernel = k;
  })

  module _ {top : Ptr} {s : State K} {lists : ℕ → List Ptr} {bs : List Ptr} (size total : ℕ) (k : K)
      (h : IsHeap null top s lists bs) (aligned : total % alignment ≡ 0)
      (fits : size + overhead ≤ total) (bound : top + total ≤ size_max) where
    abbrev g : State K
    g = grown size total top k s

    -- The blocks end at the old break, so the new one is apart from each.
    below : (z : Ptr) → has z bs ≡ true → (z == top) ≡ false
    below z m = let i = inside (size_in s) top s.heap_start z bs h.tiles m in ground arith

    grown_spares :
        (z : Ptr)
        → has z bs ≡ true
        → (g.hdr z ≡ s.hdr z)
          × (g.ftr (footer_at z (size_in s z)) ≡ s.ftr (footer_at z (size_in s z)))
    grown_spares z m =
        let i = inside (size_in s) top s.heap_start z bs h.tiles m in (ground arith, ground arith)

    old_or_new :
        (z : Ptr) → has z (bs ++ (top ∷ [])) ≡ true → (has z bs ≡ true) ⊎ ((z == top) ≡ true)
    old_or_new z m = let e = has-snoc z top bs in ground arith

    not_null : (z : Ptr) → has z bs ≡ true → (z == null) ≡ false
    not_null z m =
        let i = inside (size_in s) top s.heap_start z bs h.tiles m in
        let n = h.start_ne_null in ground arith

    pub grown-IsHeap : IsHeap null (top + total) g lists (bs ++ (top ∷ []))
    grown-IsHeap = record {
      start_ne_null = h.start_ne_null;
      initial_ne_null = h.initial_ne_null;
      top_aligned = let a = h.top_aligned in omega arith;
      tiles =
          Tiles-grow (size_in s) top (size_in g) s.heap_start total bs (ground arith) (omega arith)
            (λ z m. let (e, _) = grown_spares z m in ground arith) h.tiles;
      blocks = λ z m. elim (old_or_new z m) [
        | inl k ↦ let b = h.blocks z k in let (e, f) = grown_spares z k in ground arith
        | inr e ↦ rw (==→eq z top e) (ground (arith, h.top_aligned))
      ];
      fits = λ z m ne fr. elim (old_or_new z m) [
        | inl k ↦ let (e, f) = grown_spares z k in ground (arith, h.fits z k (not_null z k))
        | inr e ↦ rw (==→eq z top e) (ground arith)
      ];
      free_lists =
          IsFreeLists-frame top (top + total) s g lists (omega arith) bound (λ j. refl)
            (λ j z lt m. grown_spares z (h.listed j z lt m)) h.free_lists;
      listed = λ j z lt m. let k = h.listed j z lt m in rw (has-snoc z top bs) (ground arith);
      free_listed = λ z m ne fr. elim (old_or_new z m) [
        | inl k ↦
            let (e, f) = grown_spares z k in
            let l = h.free_listed z k (not_null z k) (ground arith) in
            let c : (g.hdr z).block_size ≡ (s.hdr z).block_size = ground arith in rw c l
        | inr e ↦ absurd (ground (arith, ap (λ (p : Ptr). (g.hdr p).is_free) (==→eq z top e)))
      ];
      loose_out = null_out h.free_lists;
    }

  -- The invariant does not speak of the error, the counters and the kernel.
  module _ {loose top : Ptr} {s : State K} {lists : ℕ → List Ptr} {bs : List Ptr} (e : ℕ) (k : K)
      (h : IsHeap loose top s lists bs) where
    pub outer-IsHeap : IsHeap loose top (record s { errno = e; kernel = k }) lists bs
    outer-IsHeap = record {
      start_ne_null = h.start_ne_null;
      initial_ne_null = h.initial_ne_null;
      top_aligned = h.top_aligned;
      tiles = h.tiles;
      blocks = λ x m. let b = h.blocks x m in ground arith;
      fits = h.fits;
      free_lists =
          IsFreeLists-frame top top s (record s { errno = e; kernel = k }) lists (omega arith)
            h.free_lists.top_le (λ i. refl) (λ i z lt m. (refl, refl)) h.free_lists;
      listed = h.listed;
      free_listed = h.free_listed;
      loose_out = h.loose_out;
    }

  module _ {os : Os K} {break : K → Ptr} (o : IsOs os break) {s : State K} {lists : ℕ → List Ptr}
      {bs : List Ptr} (h : IsHeap null (break s.kernel) s lists bs) where
    -- The break of a heap in order is aligned, and needs no padding.
    ensure_break_aligned-ok : ensure_break_aligned os s ≡ ok true s
    unfolding ensure_break_aligned
    ensure_break_aligned-ok =
        let a = h.top_aligned in
        let e : (break s.kernel % alignment == 0) ≡ true = ground arith in
        rw (o.sbrk_zero s.kernel, e)

    ensure_initial_break-ok : ensure_initial_break os s ≡ ok true s
    unfolding ensure_initial_break
    ensure_initial_break-ok =
        let n = h.initial_ne_null in
        let e : (s.initial_break == null) ≡ false = ground arith in rw e

    -- What `grow_heap` makes of the reply of `sbrk`.
    pub grow_heap-use_new_block :
        (total : ℕ)
        → grow_heap os total s
          ≡ use_new_block os total
              ((os.sbrk total s.kernel).0)
              (record s { kernel = (os.sbrk total s.kernel).1 })
    unfolding grow_heap
    grow_heap-use_new_block total =
        let n = h.start_ne_null in
        let e : (s.heap_start == null) ≡ false = ground arith in
        rw (ensure_initial_break-ok, e, ensure_break_aligned-ok)
