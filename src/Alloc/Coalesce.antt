-- ===== src/Alloc/Coalesce.antt =====
-- `my_free` of src/allocator/allocator.c merges a block with its free neighbours.
use linux_dynamic_memory_all.Prelude.{
  ℕ, ◌+◌, ◌-◌, ◌≡◌, ◌≤◌, ◌<◌, ◌⊎◌, inl, inr, true, false, some, List, arith, refl, ap, sym,
}
use linux_dynamic_memory_all.Prelude.Tests.{◌==◌, Bool-cases, ==→eq}
use linux_dynamic_memory_all.Prelude.Lists.{has, erase, has-erase_ne}
use linux_dynamic_memory_all.Memory.{
  Ptr, footer_size, num_size_classes, State, Os, update, Returns, Returns-inv,
}
use linux_dynamic_memory_all.Kernel.{IsOs}
use linux_dynamic_memory_all.FreeList.{get_size_class_index, footer_at, free_list_remove}
use linux_dynamic_memory_all.FreeList.Inv.{block_of}
use linux_dynamic_memory_all.FreeList.SizeClass.{get_size_class_index-lt}
use linux_dynamic_memory_all.FreeList.Remove.{Removed, free_list_remove-Removed}
use linux_dynamic_memory_all.Alloc.{is_adjacent_free_block}
use linux_dynamic_memory_all.Alloc.Free.{coalesce_next, coalesce_prev, prev_is_free, prev_of}
use linux_dynamic_memory_all.Alloc.Layout.{inside, next_tile, prev_tile}
use linux_dynamic_memory_all.Alloc.Inv.{size_in, IsHeap}
use linux_dynamic_memory_all.Alloc.Merge.{merged, merge-IsHeap, kept, size_same}

module _ {K : Type 0} where
  -- The blocks in use other than `x` are as they were.
  pub record SameInUse (x : Ptr) (s s' : State K) (bs bs' : List Ptr) : Type 0 where
    pub stays :
        (z : Ptr)
        → has z bs ≡ true
        → (z == x) ≡ false
        → (s.hdr z).is_free ≡ 0
        → (has z bs' ≡ true)
          × ((s'.hdr z).is_free ≡ 0)
          × ((s'.hdr z).requested_size ≡ (s.hdr z).requested_size)
          × ((s'.hdr z).block_size ≡ (s.hdr z).block_size)
    pub bytes : s'.bytes ≡ s.bytes

  -- The heap after a step of `my_free` at `x`: the block that holds `x` now is `y`.
  pub record After (x y top : Ptr) (s : State K) (bs : List Ptr) (s' : State K) : Type 0 where
    pub lists' : ℕ → List Ptr
    pub bs' : List Ptr
    pub heap : IsHeap y top s' lists' bs'
    pub mem : has y bs' ≡ true
    pub held : (y ≡ x) ⊎ (((s.hdr y).is_free == 0) ≡ false)
    pub covers : (y ≤ x) × (x + size_in s x ≤ y + size_in s' y)
    pub in_use : SameInUse x s s' bs bs'
    pub kernel : s'.kernel ≡ s.kernel
    pub stats : s'.stats ≡ s.stats

  module _ {os : Os K} {break : K → Ptr} (o : IsOs os break) {s : State K} {lists : ℕ → List Ptr}
      {bs : List Ptr} {x : Ptr} (h : IsHeap x (break s.kernel) s lists bs)
      (hx : has x bs ≡ true) where
    abbrev top : Ptr
    top = break s.kernel

    unchanged : After x x top s bs s
    unchanged = record {
      lists' = lists;
      bs' = bs;
      heap = h;
      mem = hx;
      held = inl refl;
      covers = omega arith;
      in_use = record { stays = λ z m ne u. (m, u, refl, refl); bytes = refl };
      kernel = refl;
      stats = refl;
    }

    -- The state after the free block `f` and the loose block `x` are merged.
    pub merged-After :
        (lo hi f i : ℕ) (s1 : State K)
        → has lo bs ≡ true
        → has hi bs ≡ true
        → hi ≡ lo + size_in s lo
        → ((x ≡ lo) × (f ≡ hi)) ⊎ ((x ≡ hi) × (f ≡ lo))
        → i < num_size_classes
        → has f (lists i) ≡ true
        → Removed f i s s1
        → After x lo top s bs (merged lo hi s1)
    merged-After lo hi f i s1 hlo hhi next sides lt mem r = record {
      lists' = update lists i (erase f (lists i));
      bs' = erase hi bs;
      heap = merge-IsHeap o h lo hi f i hlo hhi next sides lt mem r;
      mem =
          let il = inside (size_in s) top s.heap_start lo bs h.tiles hlo in
          rw (has-erase_ne lo hi bs (ground arith)) hlo;
      held =
          let fb = (block_of h.free_lists i f lt mem).free in
          elim sides [
            | inl (a, b) ↦ inl (sym a)
            | inr (a, b) ↦ inr (ground (arith, ap (λ (y : Ptr). (s.hdr y).is_free) b))
          ];
      covers =
          let e1 = size_same o h lo hi f i hlo hhi next sides lt mem r lo in
          let e2 = size_same o h lo hi f i hlo hhi next sides lt mem r hi in
          elim sides [ inl (a, b) ↦ rw a (ground arith) | inr (a, b) ↦ rw a (ground arith) ];
      in_use = record {
        stays = λ z m ne u.
            let fb = (block_of h.free_lists i f lt mem).free in
            let nf : (z == f) ≡ false = elim (Bool-cases (z == f)) [
              | inl e ↦ absurd (ground (arith, ap (λ (y : Ptr). (s.hdr y).is_free) (==→eq z f e)))
              | inr e ↦ e
            ] in
            let nlo : (z == lo) ≡ false = ground arith in
            let nhi : (z == hi) ≡ false = ground arith in
            let (q, _, _) = kept o h lo hi f i hlo hhi next sides lt mem r z m nlo nhi in
            (rw (has-erase_ne z hi bs nhi) m, ground arith, ground arith, ground arith);
        bytes = r.bytes;
      };
      kernel = r.kernel;
      stats = r.stats;
    }

    -- The block behind `x`, if it passes the tests, is a free block of the heap in its list.
    pub adjacent :
        is_adjacent_free_block s (x + size_in s x) (some top) ≡ true
        → (has (x + size_in s x) bs ≡ true)
          × (has (x + size_in s x) (lists (get_size_class_index (size_in s (x + size_in s x))))
              ≡ true)
    unfolding is_adjacent_free_block
    adjacent e =
        let i = inside (size_in s) top s.heap_start x bs h.tiles hx in
        let k : has (x + size_in s x) bs ≡ true =
          ground (arith, next_tile (size_in s) top s.heap_start x bs h.tiles hx) in
        (k, h.free_listed (x + size_in s x) k (ground arith) (ground arith))

    pub coalesce_next-After :
        Returns
          (λ _. After x x (break s.kernel) s bs)
          (coalesce_next os x (some (break s.kernel)) s)
    unfolding coalesce_next
    coalesce_next-After =
        elim (Bool-cases (is_adjacent_free_block s (x + size_in s x) (some top))) [
          | inl e ↦
              let y = x + size_in s x in
              let (k, l) = adjacent e in
              let c = get_size_class_index (size_in s y) in
              let lt = get_size_class_index-lt (size_in s y) in
              let (t, s1, q, r) =
                Returns-inv (λ _. Removed y c s) (free_list_remove os y s)
                  (free_list_remove-Removed o h.free_lists y c lt l) in
              rw (e, q) (merged-After x y y c s1 hx k refl (inl (refl, refl)) lt l r)
          | inr e ↦ rw e unchanged
        ]

    -- The block before `x`, if it passes the tests, is a free block of the heap in its list.
    preceding :
        prev_is_free os s x ≡ true
        → (has (prev_of os s x) bs ≡ true)
          × (prev_of os s x + size_in s (prev_of os s x) ≡ x)
          × (has (prev_of os s x) (lists (get_size_class_index (size_in s (prev_of os s x))))
              ≡ true)
    unfolding prev_is_free
    preceding e = elim (prev_tile (size_in s) top s.heap_start x bs h.tiles hx) [
      | inl first ↦ absurd (ground arith)
      | inr (y, hy, ends) ↦
          let b = (h.blocks y hy).footer in
          let i = inside (size_in s) top s.heap_start y bs h.tiles hy in
          let at : footer_at y (size_in s y) ≡ x - footer_size = omega arith in
          let fs : (s.ftr (x - footer_size)).block_size ≡ size_in s y =
            ground (arith, ap (λ (k : Ptr). (s.ftr k).block_size) at) in
          let p : prev_of os s x ≡ y = omega arith in
          let fr : ((s.hdr y).is_free == 0) ≡ false =
            ground (arith, ap (λ (k : Ptr). (s.hdr k).is_free) p) in
          rw p (hy, ends, h.free_listed y hy (ground arith) fr)
    ]

    pub coalesce_prev-After : Returns (λ y. After x y (break s.kernel) s bs) (coalesce_prev os x s)
    unfolding coalesce_prev
    coalesce_prev-After = elim (Bool-cases (prev_is_free os s x)) [
      | inl e ↦
          let y = prev_of os s x in
          let (k, ends, l) = preceding e in
          let c = get_size_class_index (size_in s y) in
          let lt = get_size_class_index-lt (size_in s y) in
          let (t, s1, q, r) =
            Returns-inv (λ _. Removed y c s) (free_list_remove os y s)
              (free_list_remove-Removed o h.free_lists y c lt l) in
          rw (e, q) (merged-After y x y c s1 k hx (sym ends) (inr (refl, refl)) lt l r)
      | inr e ↦ rw e unchanged
    ]
