-- ===== src/Alloc/Resize.antt =====
-- The states of the in-place paths of `my_realloc` of src/allocator/allocator.c just before the
-- request and the counters change.
use linux_dynamic_memory_all.Prelude.{
  ℕ, ◌+◌, ◌%◌, ◌≡◌, ◌≤◌, inl, inr, true, false, List, ◌∷◌, arith, refl, ap, sym, ◌∙◌,
}
use linux_dynamic_memory_all.Prelude.Tests.{◌==◌, Bool-cases, ==→eq}
use linux_dynamic_memory_all.Prelude.Lists.{has}
use linux_dynamic_memory_all.Memory.{
  Ptr, null, alignment, overhead, header_size, Stats, State, update, pure, ◌>>◌, Returns,
}
use linux_dynamic_memory_all.FreeList.{get_size_class_index, free_list_insert}
use linux_dynamic_memory_all.Alloc.{min_split}
use linux_dynamic_memory_all.Alloc.Realloc.{count_change, set_requested}
use linux_dynamic_memory_all.Alloc.Layout.{insert_after, has-insert_after}
use linux_dynamic_memory_all.Alloc.Inv.{size_in, IsHeap}
use linux_dynamic_memory_all.Alloc.Coalesce.{SameInUse}
use linux_dynamic_memory_all.Alloc.Cut.{IsShort, IsCut, spared, cut-IsHeap}
use linux_dynamic_memory_all.Alloc.Asked.{asked, asked-end, changed, list_rest}

module _ {K : Type 0} where
  -- The heap is in order but for the request of the block `x` in use and the counters.
  pub record Fitted (x size : ℕ) (st : Stats) (top : Ptr) (s : State K) (bs : List Ptr)
      (t : State K) : Type 0 where
    pub lists' : ℕ → List Ptr
    pub bs' : List Ptr
    pub heap : IsHeap null top (asked x size st t.ftr t) lists' bs'
    pub mem : has x bs' ≡ true
    pub used : (t.hdr x).is_free ≡ 0
    pub in_use : SameInUse x s t bs bs'
    pub kernel : t.kernel ≡ s.kernel
    pub stats : t.stats ≡ s.stats

  -- What the in-place paths lead to. The heap is in order, the block `x` is in use for `size` bytes,
  -- the other blocks in use and all payload bytes are as they were, and the difference of the
  -- requests is counted.
  pub record Resized (x size : ℕ) (top : Ptr) (s : State K) (bs : List Ptr) (p : Ptr) (s' : State K)
      : Type 0 where
    pub payload : p ≡ x + header_size
    pub lists' : ℕ → List Ptr
    pub bs' : List Ptr
    pub heap : IsHeap null top s' lists' bs'
    pub mem : has x bs' ≡ true
    pub used : (s'.hdr x).is_free ≡ 0
    pub requested : (s'.hdr x).requested_size ≡ size
    pub in_use : SameInUse x s s' bs bs'
    pub kernel : s'.kernel ≡ s.kernel
    pub stats : s'.stats ≡ changed size (s.hdr x).requested_size s.stats

  -- The request and the counters change at last.
  pub Fitted-Resized :
      (x size : ℕ) {st : Stats} {top : Ptr} {s : State K} {bs : List Ptr} (t : State K)
      → st ≡ changed size (s.hdr x).requested_size s.stats
      → Fitted x size st top s bs t
      → Returns (Resized x size top s bs) (
          (do
            count_change size (s.hdr x).requested_size
            set_requested x size
            pure (x + header_size))
            t)
  Fitted-Resized x size {st} {top} {s} {bs} t eq f =
      let old = (s.hdr x).requested_size in
      let e : changed size old t.stats ≡ st = ap (changed size old) f.stats ∙ sym eq in
      rw (asked-end x size old t) (record {
        payload = refl;
        lists' = f.lists';
        bs' = f.bs';
        heap = rw e f.heap;
        mem = f.mem;
        used = ground (arith, f.used);
        requested = ground arith;
        in_use = record {
          stays = λ z m nx u.
              let (k, u1, p1, z1) = f.in_use.stays z m nx u in
              (k, ground arith, ground arith, ground arith);
          bytes = f.in_use.bytes;
        };
        kernel = f.kernel;
        stats = e ∙ eq;
      })

  -- The free block `y` is listed.
  pub listed-Fitted :
      {top : Ptr} {lists : ℕ → List Ptr} {bs bs' : List Ptr} {s : State K} (t : State K)
      (x size y : ℕ) (st : Stats)
      → IsHeap y top (asked x size st t.ftr t) lists bs'
      → has y bs' ≡ true
      → has x bs' ≡ true
      → (x == y) ≡ false
      → (t.hdr x).is_free ≡ 0
      → ((t.hdr y).is_free == 0) ≡ false
      → SameInUse x s t bs bs'
      → t.kernel ≡ s.kernel
      → t.stats ≡ s.stats
      → Returns (λ _. Fitted x size st top s bs) (free_list_insert y t)
  listed-Fitted {lists = lists} {bs' = bs'} t x size y st h hy hx ne used fr same ker sta =
      let (t2, q, r, h2) = list_rest t x size y st h hy ne used in
      rw q (record {
        lists' =
            update lists (get_size_class_index (size_in t y))
              (y ∷ lists (get_size_class_index (size_in t y)));
        bs' = bs';
        heap = h2;
        mem = hx;
        used = ground (arith, r.others x ne);
        in_use = record {
          stays = λ z m nx u.
              let (k, u1, p1, z1) = same.stays z m nx u in
              let ny : (z == y) ≡ false = elim (Bool-cases (z == y)) [
                | inl e ↦ absurd (ground (arith, ap (λ (k : Ptr). (t.hdr k).is_free) (==→eq z y e)))
                | inr e ↦ e
              ] in
              let w = r.others z ny in (k, ground arith, ground arith, ground arith);
          bytes = r.bytes ∙ same.bytes;
        };
        kernel = r.kernel ∙ ker;
        stats = r.stats ∙ sta;
      })

  -- The block `x` keeps `total` bytes, and the rest is listed.
  module _ {top : Ptr} {m : State K} {lists : ℕ → List Ptr} {bs : List Ptr} (t : State K)
      (x size total : ℕ) (st : Stats) (h : IsHeap x top m lists bs) (hx : has x bs ≡ true)
      (aligned : total % alignment ≡ 0) (large : total + min_split ≤ size_in m x)
      (w : IsShort x total m (asked x size st t.ftr t) bs) (least : overhead ≤ total)
      (c : IsCut x total m (asked x size st t.ftr t)) where
    -- The blocks in use but `x` are as they were.
    pub cut-SameInUse : t.bytes ≡ m.bytes → SameInUse x m t bs (insert_after x (x + total) bs)
    cut-SameInUse same = record {
      stays = λ z k nx u.
          let (q, q', ny) = spared x total h hx aligned large w least z k nx in
          (
            rw (has-insert_after z x (x + total) bs, k) refl,
            ground arith,
            ground arith,
            ground arith,
          );
      bytes = same;
    }

    pub cut-Fitted :
        t.bytes ≡ m.bytes
        → t.kernel ≡ m.kernel
        → t.stats ≡ m.stats
        → Returns (λ _. Fitted x size st top m bs) (free_list_insert (x + total) t)
    cut-Fitted same ker sta =
        let ne : (x == x + total) ≡ false = ground arith in
        listed-Fitted t x size (x + total) st (cut-IsHeap x total h hx aligned large w least c)
          (rw (has-insert_after (x + total) x (x + total) bs) (ground arith))
          (rw (has-insert_after x x (x + total) bs, hx) refl) ne (ground (arith, c.self))
          (ground (arith, c.free)) (cut-SameInUse same) ker sta
