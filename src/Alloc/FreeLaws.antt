-- ===== src/Alloc/FreeLaws.antt =====
-- `my_free` of src/allocator/allocator.c keeps the heap in order.
use mathlib.Core.Path.{subst}
use linux_dynamic_memory_all.Prelude.{
  ℕ, ◌+◌, ◌-◌, ◌≡◌, ◌≤◌, inl, inr, true, false, some, List, ◌∷◌, arith, refl, ap, sym, ◌∙◌,
}
use linux_dynamic_memory_all.Prelude.Tests.{◌==◌, Bool-cases, ==→eq}
use linux_dynamic_memory_all.Prelude.Lists.{has}
use linux_dynamic_memory_all.Memory.{
  Ptr, null, header_size, State, Os, update, ok, Returns, Returns-inv,
}
use linux_dynamic_memory_all.Kernel.{IsOs}
use linux_dynamic_memory_all.FreeList.{get_size_class_index, free_list_insert}
use linux_dynamic_memory_all.FreeList.Insert.{Inserted, free_list_insert-Inserted}
use linux_dynamic_memory_all.Alloc.{add_size}
use linux_dynamic_memory_all.Alloc.Free.{
  check_block, coalesce_next, coalesce_prev, free_block, my_free,
}
use linux_dynamic_memory_all.Alloc.Layout.{inside}
use linux_dynamic_memory_all.Alloc.Inv.{size_in, IsHeap}
use linux_dynamic_memory_all.Alloc.Loose.{held-IsLoose, touch-IsHeap, insert-IsHeap}
use linux_dynamic_memory_all.Alloc.Coalesce.{
  SameInUse, After, coalesce_next-After, coalesce_prev-After,
}

module _ {K : Type 0} where
  -- The heap after `my_free` of the block `x`: it is in order again, the memory of `x` lies in a free
  -- block, the other blocks in use are as they were, and the request is counted as freed.
  pub record Freed (x top : Ptr) (s : State K) (bs : List Ptr) (s' : State K) : Type 0 where
    pub lists' : ℕ → List Ptr
    pub bs' : List Ptr
    pub heap : IsHeap null top s' lists' bs'
    pub home : Ptr
    pub home_mem : has home bs' ≡ true
    pub home_free : (s'.hdr home).is_free ≡ 1
    pub covers : (home ≤ x) × (x + size_in s x ≤ home + size_in s' home)
    pub in_use : SameInUse x s s' bs bs'
    pub kernel : s'.kernel ≡ s.kernel
    pub stats :
        s'.stats
        ≡ record (s.stats) { total_freed = add_size s.stats.total_freed (s.hdr x).requested_size }

  -- The state when the block is marked and counted.
  abbrev marked : Ptr → State K → State K
  marked x s = record s {
    hdr = update s.hdr x (record (s.hdr x) { is_free = 1 });
    stats = record (s.stats) {
      total_freed = add_size s.stats.total_freed (s.hdr x).requested_size;
    };
  }

  module _ {os : Os K} {break : K → Ptr} (o : IsOs os break) {s : State K} {lists : ℕ → List Ptr}
      {bs : List Ptr} (h : IsHeap null (break s.kernel) s lists bs) (x : Ptr) (hx : has x bs ≡ true)
      (used : (s.hdr x).is_free ≡ 0) where
    -- A block in use passes every check.
    pub check_block-ok : check_block os x s ≡ ok tt s
    unfolding check_block
    check_block-ok =
        let b = h.blocks x hx in
        let i = inside (size_in s) (break s.kernel) s.heap_start x bs h.tiles hx in
        let n = h.start_ne_null in
        ground (arith, b.magic, b.on_heap, b.footer, o.sbrk_zero s.kernel)

    marked-IsHeap : IsHeap x (break s.kernel) (marked x s) lists bs
    marked-IsHeap =
        touch-IsHeap h (marked x s) x hx (inr (refl, used)) (λ z ne. ground arith) (ground arith)
          (λ j. refl) (λ z k. refl) refl refl

    -- The steps put together.
    freed :
        (s2 s3 s4 : State K) (y : Ptr) (a2 : After x x (break s.kernel) (marked x s) bs s2)
        (a3 : After x y (break s2.kernel) s2 a2.bs' s3)
        → Inserted y (get_size_class_index (s3.hdr y).block_size) s3 s4
        → Freed x (break s.kernel) s bs s4
    freed s2 s3 s4 y a2 a3 r =
        let c = get_size_class_index (s3.hdr y).block_size in
        record {
          lists' = update a3.lists' c (y ∷ a3.lists' c);
          bs' = a3.bs';
          heap =
              let k : break s2.kernel ≡ break s.kernel = ap break a2.kernel in
              let f = insert-IsHeap a3.heap a3.mem r in
              subst
                (λ (top : Ptr). IsHeap null top s4 (update a3.lists' c (y ∷ a3.lists' c)) a3.bs') k
                f;
          home = y;
          home_mem = a3.mem;
          home_free = ground (arith, r.self);
          covers =
              let size : size_in s4 y ≡ size_in s3 y = ground (arith, r.self) in
              let c2 = a2.covers in
              let c3 = a3.covers in
              let q : size_in (marked x s) x ≡ size_in s x = ground arith in ground arith;
          in_use = record {
            stays = λ z m ne u.
                let (b2, u2, p2, z2) = a2.in_use.stays z m ne (ground arith) in
                let (b3, u3, p3, z3) = a3.in_use.stays z b2 ne u2 in
                let held = a3.held in
                let ny : (z == y) ≡ false = elim (Bool-cases (z == y)) [
                  | inl e ↦
                      absurd (ground (arith, ap (λ (k : Ptr). (s2.hdr k).is_free) (==→eq z y e)))
                  | inr e ↦ e
                ] in
                let w = r.others z ny in (b3, ground arith, ground arith, ground arith);
            bytes = r.bytes ∙ a3.in_use.bytes ∙ a2.in_use.bytes;
          };
          kernel = r.kernel ∙ a3.kernel ∙ a2.kernel;
          stats = r.stats ∙ a3.stats ∙ a2.stats;
        }

    pub free_block-Freed : Returns (λ _. Freed x (break s.kernel) s bs) (free_block os x s)
    unfolding free_block
    free_block-Freed =
        let m = marked x s in
        let (t, s2, q2, a2) =
          Returns-inv (λ _. After x x (break s.kernel) m bs)
            (coalesce_next os x (some (break s.kernel)) m)
            (coalesce_next-After o marked-IsHeap hx) in
        let h2 =
          subst (λ (k : K). IsHeap x (break k) s2 a2.lists' a2.bs') (sym a2.kernel) a2.heap in
        let (y, s3, q3, a3) =
          Returns-inv (λ y. After x y (break s2.kernel) s2 a2.bs') (coalesce_prev os x s2)
            (coalesce_prev-After o h2 a2.mem) in
        let (t', s4, q4, r) =
          Returns-inv (λ _. Inserted y (get_size_class_index (s3.hdr y).block_size) s3)
            (free_list_insert y s3)
            (free_list_insert-Inserted a3.heap.free_lists y (held-IsLoose a3.heap y refl a3.mem)) in
        rw (o.sbrk_zero s.kernel, q2, q3, q4) (freed s2 s3 s4 y a2 a3 r)

    -- For a block in use of a heap in order, my_free of its payload passes every check and
    -- returns. The heap is in order again, the memory of the block lies within one free block, the
    -- other blocks in use stay in use with their sizes and requests, no payload byte changes, and
    -- the request is counted as freed.
    pub my_free-Freed_at :
        Returns (λ _. Freed x (break s.kernel) s bs) (my_free os (x + header_size) s)
    unfolding my_free
    my_free-Freed_at =
        let e : x + header_size - header_size ≡ x = omega arith in
        let n : (x + header_size == null) ≡ false = ground arith in
        let hp : ((s.hdr x).is_mmap == 0) ≡ true =
          let b = (h.blocks x hx).on_heap in ground arith in
        rw (n, e, check_block-ok, hp) free_block-Freed
