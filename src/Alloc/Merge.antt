-- ===== src/Alloc/Merge.antt =====
-- Coalescing in `my_free`: a free block and a block that is being freed become one.
use mathlib.Core.Path.{subst}
use linux_dynamic_memory_all.Prelude.{
  ℕ, ◌+◌, ◌≡◌, ◌<◌, ◌⊎◌, inl, inr, true, false, List, arith, refl, ap, sym,
}
use linux_dynamic_memory_all.Prelude.Tests.{◌==◌, Bool-cases, ==→eq}
use linux_dynamic_memory_all.Prelude.Lists.{has, erase, not-has-erase, has-erase_ne, ne_of_has}
use linux_dynamic_memory_all.Memory.{Ptr, alloc_magic_footer, num_size_classes, State, Os, update}
use linux_dynamic_memory_all.Kernel.{IsOs}
use linux_dynamic_memory_all.FreeList.{get_size_class_index, footer_at}
use linux_dynamic_memory_all.FreeList.Inv.{IsFreeLists-frame}
use linux_dynamic_memory_all.FreeList.Remove.{
  Removed, Removed-IsFreeLists, member_left, member_stays,
}
use linux_dynamic_memory_all.Alloc.Layout.{Tiles, inside, apart, gone, Tiles-merge}
use linux_dynamic_memory_all.Alloc.Inv.{size_in, IsHeapBlock, IsHeap}

module _ {K : Type 0} where
  -- The block `lo` takes in `hi`, the block behind it.
  abbrev pub merged : Ptr → Ptr → State K → State K
  merged lo hi s = record s {
    hdr = update s.hdr lo (record (s.hdr lo) { block_size = size_in s lo + size_in s hi });
    ftr =
        update s.ftr (footer_at lo (size_in s lo + size_in s hi))
          (record { magic_footer = alloc_magic_footer; block_size = size_in s lo + size_in s hi });
  }

  module _ {os : Os K} {break : K → Ptr} (o : IsOs os break) {s s1 : State K} {lists : ℕ → List Ptr}
      {bs : List Ptr} {loose : Ptr} (h : IsHeap loose (break s.kernel) s lists bs) (lo hi f i : ℕ)
      (hlo : has lo bs ≡ true) (hhi : has hi bs ≡ true) (next : hi ≡ lo + size_in s lo)
      (sides : ((loose ≡ lo) × (f ≡ hi)) ⊎ ((loose ≡ hi) × (f ≡ lo))) (i_lt : i < num_size_classes)
      (mem : has f (lists i) ≡ true) (r : Removed f i s s1) where
    abbrev top : Ptr
    top = break s.kernel

    abbrev lists' : ℕ → List Ptr
    lists' = update lists i (erase f (lists i))

    abbrev s2 : State K
    s2 = merged lo hi s1

    pub size_same : (z : Ptr) → size_in s1 z ≡ size_in s z
    size_same z = elim (Bool-cases (z == f)) [
      | inl e ↦ rw (==→eq z f e) (ground (arith, r.self))
      | inr e ↦ ground (arith, r.others z e)
    ]

    -- A member of the new lists was a member, and is neither of the two blocks.
    still_listed :
        (j z : ℕ)
        → j < num_size_classes
        → has z (lists' j) ≡ true
        → (has z (lists j) ≡ true) × ((z == f) ≡ false) × ((z == loose) ≡ false)
    still_listed j z lt m =
        let k = member_left o h.free_lists f i i_lt mem j z lt m in
        (k.0, k.1, ne_of_has z loose (lists j) k.0 (h.loose_out j lt))

    -- The other blocks keep their headers, but for the links, and their footers.
    pub kept :
        (z : Ptr)
        → has z bs ≡ true
        → (z == lo) ≡ false
        → (z == hi) ≡ false
        → ((s2.hdr z) ≡ record (s.hdr z) { next = (s1.hdr z).next; prev = (s1.hdr z).prev })
          × (s2.ftr (footer_at z (size_in s z)) ≡ s.ftr (footer_at z (size_in s z)))
          × (s2.hdr z ≡ s1.hdr z)
    kept z m nl nh =
        let a = apart (size_in s) top s.heap_start z hi bs h.tiles m hhi in
        let i = inside (size_in s) top s.heap_start z bs h.tiles m in
        let ih = inside (size_in s) top s.heap_start hi bs h.tiles hhi in
        let e1 = size_same lo in
        let e2 = size_same hi in (ground (arith, r.others z), ground (arith, r.ftr), ground arith)

    -- The merged block is a block of the heap.
    merged-IsHeapBlock : IsHeapBlock s2 lo
    merged-IsHeapBlock =
        let bl = h.blocks lo hlo in
        let bh = h.blocks hi hhi in
        let e1 = size_same lo in
        let e2 = size_same hi in
        ground (
          arith,
          r.others lo,
          r.self,
          bl.magic,
          bl.aligned,
          bl.size_aligned,
          bl.on_heap,
          bh.size_aligned,
        )

    remaining : (z : Ptr) → has z (erase hi bs) ≡ true → (has z bs ≡ true) × ((z == hi) ≡ false)
    remaining z m = (
      ground (arith, not-has-erase z hi bs),
      ne_of_has z hi (erase hi bs) m (gone (size_in s) top s.heap_start hi bs h.tiles),
    )

    -- A member of the new lists is a block of the heap other than the two.
    still_listed_block :
        (j z : ℕ)
        → j < num_size_classes
        → has z (lists' j) ≡ true
        → (has z bs ≡ true) × ((z == lo) ≡ false) × ((z == hi) ≡ false)
    still_listed_block j z lt m =
        let (k, nf, nl) = still_listed j z lt m in (h.listed j z lt k, ground arith, ground arith)

    merge-blocks : (z : Ptr) → has z (erase hi bs) ≡ true → IsHeapBlock s2 z
    merge-blocks z m = elim (Bool-cases (z == lo)) [
      | inl e ↦ rw (==→eq z lo e) merged-IsHeapBlock
      | inr e ↦
          let (k, nh) = remaining z m in
          let b = h.blocks z k in let (q, q', _) = kept z k e nh in ground arith
    ]

    merge-free_listed :
        (z : Ptr)
        → has z (erase hi bs) ≡ true
        → (z == lo) ≡ false
        → ((s2.hdr z).is_free == 0) ≡ false
        → has z (lists' (get_size_class_index (s2.hdr z).block_size)) ≡ true
    merge-free_listed z m nl fr =
        let (k, nh) = remaining z m in
        let (q, q', _) = kept z k nl nh in
        let size : (s2.hdr z).block_size ≡ (s.hdr z).block_size = ground arith in
        let l = h.free_listed z k (ground arith) (ground arith) in
        let nf : (z == f) ≡ false = ground arith in
        let c = get_size_class_index (s.hdr z).block_size in
        rw size (member_stays o h.free_lists f i i_lt mem c z l nf)

    pub merge-IsHeap : IsHeap lo top s2 lists' (erase hi bs)
    merge-IsHeap = record {
      start_ne_null = rw r.heap_start h.start_ne_null;
      initial_ne_null = rw r.initial_break h.initial_ne_null;
      top_aligned = h.top_aligned;
      tiles =
          let sum : size_in s2 lo ≡ size_in s lo + size_in s (lo + size_in s lo) =
            ground (arith, size_same lo, size_same hi, ap (size_in s) next) in
          let t =
            Tiles-merge (size_in s) top (size_in s2) s.heap_start lo bs hlo (rw (← next) hhi) sum
              (λ z ne. ground (arith, size_same z)) h.tiles in
          let t' =
            subst (λ (k : Ptr). Tiles (size_in s2) top s.heap_start (erase k bs)) (sym next) t in
          subst (λ (k : Ptr). Tiles (size_in s2) top k (erase hi bs)) (sym r.heap_start) t';
      blocks = merge-blocks;
      fits = λ z m nl fr.
          let (k, nh) = remaining z m in
          let (q, q', _) = kept z k nl nh in
          let b = h.fits z k (ground arith) (ground arith) in ground arith;
      free_lists =
          IsFreeLists-frame top top s1 s2 lists' (omega arith) h.free_lists.top_le (λ j. refl)
            (λ j z lt m.
              let (k, nl, nh) = still_listed_block j z lt m in
              let (q, q', q'') = kept z k nl nh in (q'', ground (arith, r.ftr, size_same z)))
            (Removed-IsFreeLists o h.free_lists f i i_lt mem r);
      listed = λ j z lt m.
          let (k, nl, nh) = still_listed_block j z lt m in rw (has-erase_ne z hi bs nh) k;
      free_listed = merge-free_listed;
      loose_out = λ j lt. elim (Bool-cases (has lo (lists' j))) [
        | inl m ↦ absurd (ground (arith, still_listed_block j lo lt m))
        | inr out ↦ out
      ];
    }
