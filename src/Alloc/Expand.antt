-- ===== src/Alloc/Expand.antt =====
-- `my_realloc` of src/allocator/allocator.c: a block in use grows over the free block behind it.
use linux_dynamic_memory_all.Prelude.{
  ℕ, ◌+◌, ◌-◌, ◌%◌, ◌≡◌, ◌≤◌, ◌<◌, inl, inr, true, false, some, List, arith, refl, ◌∙◌,
}
use linux_dynamic_memory_all.Prelude.Tests.{◌==◌, Bool-cases, leb}
use linux_dynamic_memory_all.Prelude.Lists.{has}
use linux_dynamic_memory_all.Memory.{
  Ptr, alignment, overhead, num_size_classes, Stats, Os, State, Returns, Returns-inv,
}
use linux_dynamic_memory_all.Kernel.{IsOs}
use linux_dynamic_memory_all.FreeList.{get_size_class_index, free_list_insert, free_list_remove}
use linux_dynamic_memory_all.FreeList.SizeClass.{get_size_class_index-lt}
use linux_dynamic_memory_all.FreeList.Remove.{Removed, free_list_remove-Removed}
use linux_dynamic_memory_all.Alloc.{min_split, is_adjacent_free_block}
use linux_dynamic_memory_all.Alloc.Realloc.{use_combined, expand_block}
use linux_dynamic_memory_all.Alloc.Layout.{inside, apart}
use linux_dynamic_memory_all.Alloc.Inv.{size_in, IsHeap}
use linux_dynamic_memory_all.Alloc.Loose.{touch-IsHeap, settle-IsHeap}
use linux_dynamic_memory_all.Alloc.Merge.{merged}
use linux_dynamic_memory_all.Alloc.Coalesce.{After, merged-After, adjacent}
use linux_dynamic_memory_all.Alloc.Cut.{IsShort, IsCut}
use linux_dynamic_memory_all.Alloc.Asked.{asked, changed}
use linux_dynamic_memory_all.Alloc.Resize.{Fitted, Resized, Fitted-Resized, cut-Fitted}
use linux_dynamic_memory_all.Alloc.Shrink.{shortened, closed}

module _ {K : Type 0} where
  Fitted-after :
      {x size : ℕ} {st : Stats} {top : Ptr} {s m t : State K} {bs : List Ptr}
      (a : After x x top s bs m)
      → Fitted x size st top m a.bs' t
      → Fitted x size st top s bs t
  Fitted-after {x} {s = s} {bs = bs} a f = record {
    lists' = f.lists';
    bs' = f.bs';
    heap = f.heap;
    mem = f.mem;
    used = f.used;
    in_use = record {
      stays = λ z k nx u.
          let (k1, u1, p1, z1) = a.in_use.stays z k nx u in
          let (k2, u2, p2, z2) = f.in_use.stays z k1 nx u1 in (k2, u2, p2 ∙ p1, z2 ∙ z1);
      bytes = f.in_use.bytes ∙ a.in_use.bytes;
    };
    kernel = f.kernel ∙ a.kernel;
    stats = f.stats ∙ a.stats;
  }

  module _ {top : Ptr} {m : State K} {lists : ℕ → List Ptr} {bs : List Ptr} (x size total : ℕ)
      (st : Stats) (h : IsHeap x top m lists bs) (hx : has x bs ≡ true)
      (used : (m.hdr x).is_free ≡ 0) (fits : size + overhead ≤ total) where
    -- The block keeps all it has.
    pub whole-Fitted : total ≤ size_in m x → Fitted x size st top m bs m
    whole-Fitted le = record {
      lists' = lists;
      bs' = bs;
      heap =
          settle-IsHeap
            (touch-IsHeap h (asked x size st m.ftr m) x hx (inl refl) (λ z ne. ground arith)
              (ground arith) (λ j. refl) (λ z k. refl) refl refl)
            (ground arith) (ground arith);
      mem = hx;
      used = used;
      in_use = record { stays = λ z k nx u. (k, u, refl, refl); bytes = refl };
      kernel = refl;
      stats = refl;
    }

  module _ {os : Os K} {break : K → Ptr} (o : IsOs os break) {s : State K} {lists : ℕ → List Ptr}
      {bs : List Ptr} (x size total : ℕ) (st : Stats) (h : IsHeap x (break s.kernel) s lists bs)
      (hx : has x bs ≡ true) (used : (s.hdr x).is_free ≡ 0) (aligned : total % alignment ≡ 0)
      (fits : size + overhead ≤ total) where
    abbrev next : Ptr
    next = x + size_in s x

    module _ (s1 : State K) (i : ℕ) (lt : i < num_size_classes) (k : has next bs ≡ true)
        (l : has next (lists i) ≡ true) (r : Removed next i s s1)
        (le : total ≤ size_in s x + size_in s next) where
      abbrev both : ℕ
      both = size_in s1 x + size_in s1 next

      abbrev m : State K
      m = merged x next s1

      grown : After x x (break s.kernel) s bs m
      grown = merged-After o h hx x next next i s1 hx k refl (inl (refl, refl)) lt l r

      hxm : has x grown.bs' ≡ true
      hxm = grown.mem

      used_m : (m.hdr x).is_free ≡ 0
      used_m =
          let n : (x == next) ≡ false =
            let ix = inside (size_in s) (break s.kernel) s.heap_start x bs h.tiles hx in
            ground arith in
          ground (arith, r.others x n)

      size_m : size_in m x ≡ size_in s x + size_in s next
      size_m =
          let n : (x == next) ≡ false =
            let ix = inside (size_in s) (break s.kernel) s.heap_start x bs h.tiles hx in
            ground arith in
          ground (arith, r.others x n, r.self)

      -- What the rest leaves of the block is cut off.
      module _ (large : total + min_split ≤ both) where
        abbrev t : State K
        t = closed (x + total) (both - total) (shortened x total (both - total) s1)

        short : IsShort x total m (asked x size st t.ftr t) grown.bs'
        short = record {
          others = λ z nx ny. ground arith;
          ftrs = λ z k nx.
              let a =
                apart (size_in m) (break s.kernel) m.heap_start z x grown.bs' grown.heap.tiles k
                  hxm in
              let iz =
                inside (size_in m) (break s.kernel) m.heap_start z grown.bs' grown.heap.tiles k in
              ground arith;
          heads = λ j. refl;
          heap_start = refl;
          initial_break = refl;
        }

        is_cut : IsCut x total m (asked x size st t.ftr t)
        is_cut = record {
          self = ground (arith, used_m);
          room = ground arith;
          magic = ground arith;
          size = ground arith;
          free = ground arith;
          on_heap = ground arith;
          footer = ground arith;
          rest_footer = ground arith;
        }

        split-Fitted :
            Returns (λ _. Fitted x size st (break s.kernel) s bs) (free_list_insert (x + total) t)
        split-Fitted =
            let (u, t', q, f) =
              Returns-inv (λ _. Fitted x size st (break s.kernel) m grown.bs')
                (free_list_insert (x + total) t)
                (cut-Fitted t x size total st grown.heap hxm aligned (ground arith) short
                  (omega arith) is_cut refl refl refl) in
            rw q (Fitted-after grown f)

      combined-Fitted :
          Returns (λ _. Fitted x size st (break s.kernel) s bs) (use_combined os x total both s1)
      unfolding use_combined
      combined-Fitted = elim (Bool-cases (leb (total + min_split) both)) [
        | inl e ↦ rw e (split-Fitted (ground arith))
        | inr e ↦ rw e (
            Fitted-after grown
              (whole-Fitted x size total st grown.heap hxm used_m fits (ground (arith, size_m))))
      ]

    -- `expand_block` of the block, if the block behind it passes the tests.
    pub expand_block-Resized :
        st ≡ changed size (s.hdr x).requested_size s.stats
        → is_adjacent_free_block s next (some (break s.kernel)) ≡ true
        → total ≤ size_in s x + size_in s next
        → Returns (Resized x size (break s.kernel) s bs) (expand_block os x size total s)
    unfolding expand_block
    expand_block-Resized eq e le =
        let (k, l) = adjacent o h hx e in
        let i = get_size_class_index (size_in s next) in
        let lt = get_size_class_index-lt (size_in s next) in
        let (u, s1, q, r) =
          Returns-inv (λ _. Removed next i s) (free_list_remove os next s)
            (free_list_remove-Removed o h.free_lists next i lt l) in
        let (u', t, q', f) =
          Returns-inv (λ _. Fitted x size st (break s.kernel) s bs)
            (use_combined os x total (size_in s1 x + size_in s1 next) s1)
            (combined-Fitted s1 i lt k l r le) in
        rw (q, q') (Fitted-Resized x size {s = s} {bs = bs} t eq f)
