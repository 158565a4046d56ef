-- ===== src/Alloc/Shrink.antt =====
-- `my_realloc` of src/allocator/allocator.c: a block in use gives up its rest, and the rest takes in
-- the free block behind it.
use linux_dynamic_memory_all.Prelude.{
  ℕ, ◌+◌, ◌-◌, ◌%◌, ◌≡◌, ◌≤◌, ◌<◌, inl, inr, true, false, some, List, arith, refl, ap,
}
use linux_dynamic_memory_all.Prelude.Tests.{◌==◌, Bool-cases, ==→eq}
use linux_dynamic_memory_all.Prelude.Lists.{has}
use linux_dynamic_memory_all.Memory.{
  Ptr, null, alloc_magic_header, alloc_magic_footer, alignment, overhead, Stats, Os, State, update,
  Returns, Returns-inv, num_size_classes,
}
use linux_dynamic_memory_all.Kernel.{IsOs}
use linux_dynamic_memory_all.FreeList.{
  get_size_class_index, footer_at, free_list_insert, free_list_remove,
}
use linux_dynamic_memory_all.FreeList.SizeClass.{get_size_class_index-lt}
use linux_dynamic_memory_all.FreeList.Remove.{Removed, free_list_remove-Removed}
use linux_dynamic_memory_all.Alloc.{min_split, is_adjacent_free_block}
use linux_dynamic_memory_all.Alloc.Realloc.{trim_block, absorb_next}
use linux_dynamic_memory_all.Alloc.Layout.{insert_after, inside, apart, next_tile, has-insert_after}
use linux_dynamic_memory_all.Alloc.Inv.{size_in, IsHeap}
use linux_dynamic_memory_all.Alloc.Loose.{touch-IsHeap}
use linux_dynamic_memory_all.Alloc.Merge.{merged}
use linux_dynamic_memory_all.Alloc.Coalesce.{After, merged-After}
use linux_dynamic_memory_all.Alloc.Cut.{IsShort, IsCut, short-IsFreeLists, cut-IsHeap}
use linux_dynamic_memory_all.Alloc.Asked.{asked, asked-Removed}
use linux_dynamic_memory_all.Alloc.Resize.{Fitted, listed-Fitted, cut-Fitted, cut-SameInUse}

module _ {K : Type 0} where
  -- The state when the block `x` has its new size and the header of the rest is written.
  abbrev pub shortened : Ptr → ℕ → ℕ → State K → State K
  shortened x total rest s = record s {
    hdr =
        update (update s.hdr x (record (s.hdr x) { block_size = total })) (x + total)
          (record (update s.hdr x (record (s.hdr x) { block_size = total }) (x + total)) {
            magic_header = alloc_magic_header;
            block_size = rest;
            is_free = 1;
            is_mmap = 0;
            next = null;
            prev = null;
          });
    ftr =
        update s.ftr (footer_at x total)
          (record { magic_footer = alloc_magic_footer; block_size = total });
  }

  -- The footer of `n` bytes at `y` is written.
  abbrev pub closed : Ptr → ℕ → State K → State K
  closed y n s = record s {
    ftr =
        update s.ftr (footer_at y n) (record { magic_footer = alloc_magic_footer; block_size = n });
  }

  module _ {os : Os K} {break : K → Ptr} (o : IsOs os break) {s : State K} {lists : ℕ → List Ptr}
      {bs : List Ptr} (x size total : ℕ) (st : Stats) (h : IsHeap x (break s.kernel) s lists bs)
      (hx : has x bs ≡ true) (used : (s.hdr x).is_free ≡ 0) (aligned : total % alignment ≡ 0)
      (fits : size + overhead ≤ total) (large : total + min_split ≤ size_in s x) where
    abbrev rest : ℕ
    rest = size_in s x - total

    abbrev y : Ptr
    y = x + total

    abbrev t1 : State K
    t1 = shortened x total rest s

    abbrev t2 : State K
    t2 = closed y rest t1

    abbrev tv : State K
    tv = asked x size st t2.ftr t2

    abbrev bs2 : List Ptr
    bs2 = insert_after x y bs

    least : overhead ≤ total
    least = omega arith

    short : IsShort x total s t1 bs
    short = record {
      others = λ z nx ny. ground arith;
      ftrs = λ z k nx.
          let a = apart (size_in s) (break s.kernel) s.heap_start z x bs h.tiles k hx in
          let iz = inside (size_in s) (break s.kernel) s.heap_start z bs h.tiles k in ground arith;
      heads = λ j. refl;
      heap_start = refl;
      initial_break = refl;
    }

    closed-IsShort : IsShort x total s tv bs
    closed-IsShort = record {
      others = λ z nx ny. ground arith;
      ftrs = λ z k nx.
          let a = apart (size_in s) (break s.kernel) s.heap_start z x bs h.tiles k hx in
          let iz = inside (size_in s) (break s.kernel) s.heap_start z bs h.tiles k in ground arith;
      heads = λ j. refl;
      heap_start = refl;
      initial_break = refl;
    }

    is_cut : IsCut x total s tv
    is_cut = record {
      self = ground arith;
      room = ground arith;
      magic = ground arith;
      size = ground arith;
      free = ground arith;
      on_heap = ground arith;
      footer = ground arith;
      rest_footer = ground arith;
    }

    h2 : IsHeap y (break s.kernel) tv lists bs2
    h2 = cut-IsHeap x total h hx aligned large closed-IsShort least is_cut

    hy : has y bs2 ≡ true
    hy = rw (has-insert_after y x y bs) (ground arith)

    hx2 : has x bs2 ≡ true
    hx2 = rw (has-insert_after x x y bs, hx) refl

    -- The rest is listed as it is.
    pub kept-Fitted : Returns (λ _. Fitted x size st (break s.kernel) s bs) (free_list_insert y t2)
    kept-Fitted =
        cut-Fitted t2 x size total st h hx aligned large closed-IsShort least is_cut refl refl refl

    -- The block behind the rest is a free block of the heap in its list.
    behind :
        is_adjacent_free_block t1 (y + rest) (some (break s.kernel)) ≡ true
        → (has (y + rest) bs2 ≡ true)
          × (has (y + rest) (lists (get_size_class_index (size_in t1 (y + rest)))) ≡ true)
    unfolding is_adjacent_free_block
    behind e =
        let i = inside (size_in tv) (break s.kernel) s.heap_start y bs2 h2.tiles hy in
        let sz : size_in tv y ≡ rest = ground arith in
        let k : has (y + rest) bs2 ≡ true =
          ground (arith, next_tile (size_in tv) (break s.kernel) s.heap_start y bs2 h2.tiles hy) in
        let f : ((tv.hdr (y + rest)).is_free == 0) ≡ false = ground arith in
        let n : ((y + rest) == y) ≡ false = ground arith in
        let g : size_in tv (y + rest) ≡ size_in t1 (y + rest) = ground arith in
        (k, rw (← g) (h2.free_listed (y + rest) k n f))

    -- The rest takes in the block behind it.
    module _ (s1 : State K) (i : ℕ) (lt : i < num_size_classes) (k : has (y + rest) bs2 ≡ true)
        (l : has (y + rest) (lists i) ≡ true) (r : Removed (y + rest) i t1 s1) where
      abbrev z : Ptr
      z = y + rest

      abbrev sv : State K
      sv = asked x size st t2.ftr s1

      abbrev both : ℕ
      both = rest + size_in s1 z

      abbrev t3 : State K
      t3 =
          closed y both
            (record s1 { hdr = update s1.hdr y (record (s1.hdr y) { block_size = both }) })

      xz : (x == z) ≡ false
      xz = ground arith

      merged_rest : After y y (break s.kernel) tv bs2 (merged y z sv)
      merged_rest =
          let sz : size_in tv y ≡ rest = ground arith in
          merged-After o h2 hy y z z i sv hy k (ground arith) (inl (refl, refl)) lt l
            (asked-Removed x size st t2.ftr z i xz r)

      rest_size : size_in s1 y ≡ rest
      rest_size = ground (arith, r.others y)

      next_size : size_in sv z ≡ size_in s1 z
      next_size = ground arith

      footers_kept :
          (w : Ptr)
          → has w merged_rest.bs' ≡ true
          → t3.ftr (footer_at w (size_in (merged y z sv) w))
            ≡ (merged y z sv).ftr (footer_at w (size_in (merged y z sv) w))
      footers_kept w m =
          let a =
            apart (size_in (merged y z sv)) (break s.kernel) (merged y z sv).heap_start w y
              merged_rest.bs' merged_rest.heap.tiles m merged_rest.mem in
          let iw =
            inside (size_in (merged y z sv)) (break s.kernel) (merged y z sv).heap_start w
              merged_rest.bs' merged_rest.heap.tiles m in
          let sy : size_in (merged y z sv) y ≡ both = ground (arith, rest_size) in
          elim (Bool-cases (w == y)) [
            | inl e ↦ rw (==→eq w y e, sy) (ground (arith, rest_size))
            | inr e ↦ ground (arith, rest_size, r.ftr)
          ]

      h3 : IsHeap y (break s.kernel) (asked x size st t3.ftr t3) merged_rest.lists' merged_rest.bs'
      h3 =
          touch-IsHeap merged_rest.heap (asked x size st t3.ftr t3) y merged_rest.mem (inl refl)
            (λ w ne. ground arith) (ground (arith, rest_size)) (λ j. refl) footers_kept refl refl

      pub absorbed-Fitted :
          Returns (λ _. Fitted x size st (break s.kernel) s bs) (free_list_insert y t3)
      absorbed-Fitted =
          let same =
            cut-SameInUse t2 x size total st h hx aligned large closed-IsShort least is_cut refl in
          let xy : (x == y) ≡ false = ground arith in
          let (mx, ux, _, _) = merged_rest.in_use.stays x hx2 xy (ground arith) in
          listed-Fitted t3 x size y st h3 merged_rest.mem mx xy (ground arith)
            (ground (arith, r.others y))
            (record {
              stays = λ w m nx u.
                  let (m2, u2, p2, z2) = same.stays w m nx u in
                  let ny : (w == y) ≡ false = elim (Bool-cases (w == y)) [
                    | inl e ↦
                        absurd (ground (arith, ap (λ (k : Ptr). (t2.hdr k).is_free) (==→eq w y e)))
                    | inr e ↦ e
                  ] in
                  let (m3, u3, p3, z3) = merged_rest.in_use.stays w m2 ny (ground arith) in
                  (m3, ground arith, ground arith, ground arith);
              bytes = r.bytes;
            })
            r.kernel r.stats

    -- `trim_block` of the block.
    pub trim_block-Fitted :
        Returns
          (λ _. Fitted x size st (break s.kernel) s bs)
          (trim_block os x total (some (break s.kernel)) s)
    unfolding trim_block absorb_next
    trim_block-Fitted =
        elim (Bool-cases (is_adjacent_free_block t1 (y + rest) (some (break s.kernel)))) [
          | inl e ↦
              let (k, l) = behind e in
              let i = get_size_class_index (size_in t1 (y + rest)) in
              let lt = get_size_class_index-lt (size_in t1 (y + rest)) in
              let (u, s1, q, r) =
                Returns-inv (λ _. Removed (y + rest) i t1) (free_list_remove os (y + rest) t1)
                  (free_list_remove-Removed o
                    (short-IsFreeLists x total h hx aligned large short least) (y + rest) i lt l) in
              rw (e, q) (absorbed-Fitted s1 i lt k l r)
          | inr e ↦ rw e kept-Fitted
        ]
