-- ===== src/Alloc/Cut.antt =====
-- A block of the heap of src/allocator/allocator.c that is cut in two, by whichever function.
use mathlib.Core.Path.{subst}
use linux_dynamic_memory_all.Prelude.{
  ℕ, ◌+◌, ◌-◌, ◌%◌, ◌≡◌, ◌≤◌, ◌<◌, ◌⊎◌, inl, inr, true, false, List, arith, ap, sym,
}
use linux_dynamic_memory_all.Prelude.Tests.{◌==◌, Bool-cases, ==→eq}
use linux_dynamic_memory_all.Prelude.Lists.{has, ne_of_has}
use linux_dynamic_memory_all.Memory.{
  Ptr, alloc_magic_header, alignment, overhead, num_size_classes, State,
}
use linux_dynamic_memory_all.FreeList.{footer_at, footer_matches}
use linux_dynamic_memory_all.FreeList.Inv.{IsFreeLists, IsFreeLists-frame}
use linux_dynamic_memory_all.Alloc.{min_split}
use linux_dynamic_memory_all.Alloc.Layout.{
  insert_after, inside, apart, Tiles, Tiles-split, has-insert_after,
}
use linux_dynamic_memory_all.Alloc.Inv.{size_in, IsHeapBlock, IsHeap}

module _ {K : Type 0} where
  -- In the state `t` the block `x` of the state `s` has `total` bytes, and other blocks are as in `s`.
  pub record IsShort (x total : ℕ) (s t : State K) (bs : List Ptr) : Type 0 where
    pub others : (z : Ptr) → (z == x) ≡ false → (z == x + total) ≡ false → t.hdr z ≡ s.hdr z
    pub ftrs :
        (z : Ptr)
        → has z bs ≡ true
        → (z == x) ≡ false
        → t.ftr (footer_at z (size_in s z)) ≡ s.ftr (footer_at z (size_in s z))
    pub heads : (j : ℕ) → t.heads j ≡ s.heads j
    pub heap_start : t.heap_start ≡ s.heap_start
    pub initial_break : t.initial_break ≡ s.initial_break

  -- The block is in use with room for its request, and the rest is a free block.
  pub record IsCut (x total : ℕ) (s t : State K) : Type 0 where
    pub self : t.hdr x ≡ record (s.hdr x) {
      block_size = total;
      is_free = 0;
      requested_size = (t.hdr x).requested_size;
    }
    pub room : (t.hdr x).requested_size + overhead ≤ total
    pub magic : (t.hdr (x + total)).magic_header ≡ alloc_magic_header
    pub size : size_in t (x + total) ≡ size_in s x - total
    pub free : (t.hdr (x + total)).is_free ≡ 1
    pub on_heap : (t.hdr (x + total)).is_mmap ≡ 0
    pub footer : footer_matches t x total ≡ true
    pub rest_footer : footer_matches t (x + total) (size_in s x - total) ≡ true

  module _ {top : Ptr} {s t : State K} {lists : ℕ → List Ptr} {bs : List Ptr} (x total : ℕ)
      (h : IsHeap x top s lists bs) (hx : has x bs ≡ true) (aligned : total % alignment ≡ 0)
      (large : total + min_split ≤ size_in s x) (w : IsShort x total s t bs)
      (least : overhead ≤ total) where
    abbrev y : Ptr
    y = x + total

    pub rest_out : has y bs ≡ false
    rest_out = elim (Bool-cases (has y bs)) [
      | inl m ↦ absurd (
          let iy = inside (size_in s) top s.heap_start y bs h.tiles m in
          ground (arith, apart (size_in s) top s.heap_start y x bs h.tiles m hx))
      | inr e ↦ e
    ]

    -- Another block keeps its header and its footer.
    pub spared :
        (z : Ptr)
        → has z bs ≡ true
        → (z == x) ≡ false
        → (t.hdr z ≡ s.hdr z)
          × (t.ftr (footer_at z (size_in s z)) ≡ s.ftr (footer_at z (size_in s z)))
          × ((z == y) ≡ false)
    spared z k ne = let ny = ne_of_has z y bs k rest_out in (w.others z ne ny, w.ftrs z k ne, ny)

    pub listed_block :
        (j z : ℕ)
        → j < num_size_classes
        → has z (lists j) ≡ true
        → (has z bs ≡ true) × ((z == x) ≡ false)
    listed_block j z lt k = (h.listed j z lt k, ne_of_has z x (lists j) k (h.loose_out j lt))

    pub short-IsFreeLists : IsFreeLists top t lists
    short-IsFreeLists =
        IsFreeLists-frame top top s t lists (omega arith) h.free_lists.top_le w.heads
          (λ j z lt k.
            let (m, ne) = listed_block j z lt k in let (q, q', _) = spared z m ne in (q, q'))
          h.free_lists

    in_two : (z : Ptr) → has z (insert_after x y bs) ≡ true → (has z bs ≡ true) ⊎ ((z == y) ≡ true)
    in_two z k = let e = has-insert_after z x y bs in ground arith

    module _ (c : IsCut x total s t) where
      cut-blocks : (z : Ptr) → has z (insert_after x y bs) ≡ true → IsHeapBlock t z
      cut-blocks z k =
          let b = h.blocks x hx in
          elim (in_two z k) [
            | inl m ↦ elim (Bool-cases (z == x)) [
              | inl e ↦
                  rw (==→eq z x e) (ground (arith, b.magic, b.aligned, b.on_heap, c.self, c.footer))
              | inr e ↦ let bz = h.blocks z m in let (q, q', _) = spared z m e in ground arith
            ]
            | inr e ↦ rw (==→eq z y e) (
                ground
                  (arith, b.aligned, b.size_aligned, c.magic, c.size, c.on_heap, c.rest_footer))
          ]

      pub cut-IsHeap : IsHeap y top t lists (insert_after x y bs)
      cut-IsHeap = record {
        start_ne_null = rw w.heap_start h.start_ne_null;
        initial_ne_null = rw w.initial_break h.initial_ne_null;
        top_aligned = h.top_aligned;
        tiles =
            subst (λ (k : Ptr). Tiles (size_in t) top k (insert_after x y bs)) (sym w.heap_start)
              (Tiles-split (size_in s) top (size_in t) s.heap_start x y bs hx
                (ground (arith, c.self)) (ground (arith, c.self, c.size)) (ground (arith, c.self))
                (ground (arith, c.size)) (λ z nx ny. ground (arith, w.others z nx ny)) h.tiles);
        blocks = cut-blocks;
        fits = λ z k ny fr. elim (in_two z k) [
          | inl m ↦ elim (Bool-cases (z == x)) [
            | inl e ↦ rw (==→eq z x e) (ground (arith, c.self, c.room))
            | inr e ↦ let (q, q', _) = spared z m e in ground (arith, h.fits z m e)
          ]
          | inr e ↦ absurd (cc (e, ny))
        ];
        free_lists = short-IsFreeLists;
        listed = λ j z lt k.
            let (m, ne) = listed_block j z lt k in rw (has-insert_after z x y bs) (ground arith);
        free_listed = λ z k ny fr. elim (in_two z k) [
          | inl m ↦ elim (Bool-cases (z == x)) [
            | inl e ↦
                absurd (ground (arith, c.self, ap (λ (p : Ptr). (t.hdr p).is_free) (==→eq z x e)))
            | inr e ↦
                let (q, q', _) = spared z m e in
                let l = h.free_listed z m e (ground arith) in
                let k : (t.hdr z).block_size ≡ (s.hdr z).block_size = ground arith in rw k l
          ]
          | inr e ↦ absurd (cc (e, ny))
        ];
        loose_out = λ j lt. elim (Bool-cases (has y (lists j))) [
          | inl m ↦ absurd (cc (h.listed j y lt m, rest_out))
          | inr e ↦ e
        ];
      }
