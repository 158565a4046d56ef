-- ===== src/Alloc/Take.antt =====
-- The block that `free_list_find_fit` takes out of its list, in the heap.
use mathlib.Core.Path.{subst}
use linux_dynamic_memory_all.Prelude.{ℕ, ◌≡◌, ◌<◌, inl, inr, true, false, List, arith, sym}
use linux_dynamic_memory_all.Prelude.Tests.{◌==◌, Bool-cases, ==→eq}
use linux_dynamic_memory_all.Prelude.Lists.{has, erase}
use linux_dynamic_memory_all.Memory.{Ptr, null, num_size_classes, State, Os, update}
use linux_dynamic_memory_all.Kernel.{IsOs}
use linux_dynamic_memory_all.FreeList.{get_size_class_index}
use linux_dynamic_memory_all.FreeList.Remove.{
  Removed, Removed-IsFreeLists, member_left, member_stays,
}
use linux_dynamic_memory_all.Alloc.Layout.{Tiles, Tiles-frame}
use linux_dynamic_memory_all.Alloc.Inv.{size_in, IsHeap}
use linux_dynamic_memory_all.Alloc.Loose.{block_ne_null}

module _ {K : Type 0} {os : Os K} {break : K → Ptr} (o : IsOs os break) {s s' : State K}
    {lists : ℕ → List Ptr} {bs : List Ptr} (h : IsHeap null (break s.kernel) s lists bs) (x i : ℕ)
    (i_lt : i < num_size_classes) (mem : has x (lists i) ≡ true) (r : Removed x i s s') where
  taken_size : (z : Ptr) → size_in s' z ≡ size_in s z
  taken_size z = elim (Bool-cases (z == x)) [
    | inl e ↦ rw (==→eq z x e) (ground (arith, r.self))
    | inr e ↦ ground (arith, r.others z e)
  ]

  not_null : (z : Ptr) → has z bs ≡ true → (z == null) ≡ false
  not_null z k = let n = block_ne_null h z k in ground arith

  -- The block taken is the loose one; the others are as they were.
  pub take-IsHeap : IsHeap x (break s.kernel) s' (update lists i (erase x (lists i))) bs
  take-IsHeap = record {
    start_ne_null = rw r.heap_start h.start_ne_null;
    initial_ne_null = rw r.initial_break h.initial_ne_null;
    top_aligned = h.top_aligned;
    tiles =
        let t =
          Tiles-frame (size_in s) (size_in s') (break s.kernel) s.heap_start bs
            (λ z k. taken_size z) h.tiles in
        subst (λ (k : Ptr). Tiles (size_in s') (break s.kernel) k bs) (sym r.heap_start) t;
    blocks = λ z k.
        let b = h.blocks z k in
        elim (Bool-cases (z == x)) [
          | inl e ↦
              let b' = h.blocks x (h.listed i x i_lt mem) in
              rw (==→eq z x e) (ground (arith, r.self, r.ftr))
          | inr e ↦ ground (arith, r.others z e, r.ftr)
        ];
    fits = λ z k ne fr. ground (arith, r.others z ne, h.fits z k (not_null z k));
    free_lists = Removed-IsFreeLists o h.free_lists x i i_lt mem r;
    listed = λ j z lt k. h.listed j z lt (member_left o h.free_lists x i i_lt mem j z lt k).0;
    free_listed = λ z k ne fr.
        let l = h.free_listed z k (not_null z k) (ground (arith, r.others z ne)) in
        rw (taken_size z) (
          member_stays o h.free_lists x i i_lt mem (get_size_class_index (s.hdr z).block_size) z l
            ne);
    loose_out = λ j lt. elim (Bool-cases (has x (update lists i (erase x (lists i)) j))) [
      | inl m ↦ absurd (ground (arith, member_left o h.free_lists x i i_lt mem j x lt m))
      | inr out ↦ out
    ];
  }
