-- ===== src/Alloc/MallocLaws.antt =====
-- `my_malloc` of src/allocator/allocator.c keeps the heap in order and hands out a block of its own.
use mathlib.Core.Path.{subst}
use linux_dynamic_memory_all.Prelude.{
  ℕ, ◌+◌, ◌-◌, ◌%◌, ◌≡◌, ◌≤◌, ◌<◌, inl, inr, true, false, List, [], ◌∷◌, ◌++◌, arith, refl, ap, sym,
  ◌∙◌, Option, none, some,
}
use linux_dynamic_memory_all.Prelude.Tests.{◌==◌, if◌then◌else◌, Bool-cases, ==→eq, leb, ltb}
use linux_dynamic_memory_all.Prelude.Lists.{has, ne_of_has, length, erase}
use linux_dynamic_memory_all.Memory.{
  Ptr, null, alignment, overhead, header_size, num_size_classes, mmap_threshold, size_max, State,
  Os, update, Returns, Returns-inv, and_then, ◌>>=◌, ◌>>◌,
}
use linux_dynamic_memory_all.Kernel.{IsOs}
use linux_dynamic_memory_all.FreeList.{get_size_class_index, free_list_find_fit}
use linux_dynamic_memory_all.FreeList.Inv.{block_of}
use linux_dynamic_memory_all.FreeList.Insert.{Inserted}
use linux_dynamic_memory_all.FreeList.Remove.{Removed}
use linux_dynamic_memory_all.FreeList.FindFit.{BestFit, none_fits, best, free_list_find_fit-BestFit}
use linux_dynamic_memory_all.Alloc.{add_size, enomem, total_size_of, min_split}
use linux_dynamic_memory_all.Alloc.Malloc.{
  grow_heap, use_new_block, hand_out, hand_out_new, split_block, malloc_heap, my_malloc,
}
use linux_dynamic_memory_all.Alloc.Layout.{inside, insert_after, has-insert_after, has-snoc}
use linux_dynamic_memory_all.Alloc.Inv.{size_in, IsHeap}
use linux_dynamic_memory_all.Alloc.Coalesce.{SameInUse}
use linux_dynamic_memory_all.Alloc.Loose.{block_ne_null}
use linux_dynamic_memory_all.Alloc.Take.{take-IsHeap}
use linux_dynamic_memory_all.Alloc.Carve.{
  handed, hand_out-handed, whole-IsHeap, split_block-Inserted, split_block-whole, split-IsHeap,
  out_of, cut,
}
use linux_dynamic_memory_all.Alloc.Grow.{grown, grown-IsHeap, outer-IsHeap, grow_heap-use_new_block}

module _ {K : Type 0} (break : K → Ptr) where
  -- What a request for `size` bytes below MMAP_THRESHOLD leads to. Either no memory is left, and
  -- nothing has changed but `errno`. Or the pointer is the payload of a block in use with room for
  -- the request, which was no block in use before; the others are as they were.
  pub data Malloced (size : ℕ) (s : State K) (bs : List Ptr) (p : Ptr) (s' : State K) : Type 0 where
    no_memory :
        (lists : ℕ → List Ptr)
        → p ≡ null
        → s'.errno ≡ enomem
        → IsHeap null (break s'.kernel) s' lists bs
        → SameInUse null s s' bs bs
        → s'.stats ≡ s.stats
        → Malloced size s bs p s'
    gave :
        (b : Ptr) (lists' : ℕ → List Ptr) (bs' : List Ptr)
        → p ≡ b + header_size
        → IsHeap null (break s'.kernel) s' lists' bs'
        → has b bs' ≡ true
        → (s'.hdr b).is_free ≡ 0
        → (s'.hdr b).requested_size ≡ size
        → ((z : Ptr) → has z bs ≡ true → (s.hdr z).is_free ≡ 0 → (z == b) ≡ false)
        → SameInUse null s s' bs bs'
        → s'.stats.total_allocated ≡ add_size s.stats.total_allocated size
        → Malloced size s bs p s'

-- For a request above 0, the size of the block is a multiple of 16, and holds the request, the
-- header and the footer with at most 15 bytes over.
pub total_size_lem :
    (size : ℕ)
    → 0 < size
    → (total_size_of size % alignment ≡ 0)
      × (size + overhead ≤ total_size_of size)
      × (total_size_of size ≤ size + overhead + 15)
total_size_lem size h = omega arith

module _ {K : Type 0} {os : Os K} {break : K → Ptr} (o : IsOs os break) {s : State K}
    {lists : ℕ → List Ptr} {bs : List Ptr} (h : IsHeap null (break s.kernel) s lists bs)
    (size total : ℕ) (aligned : total % alignment ≡ 0) (fits : size + overhead ≤ total) where
  abbrev top : Ptr
  top = break s.kernel

  apart_new : (z : Ptr) → has z bs ≡ true → (z == top) ≡ false
  apart_new z m = let i = inside (size_in s) top s.heap_start z bs h.tiles m in ground arith

  -- No free block is large enough: the heap grows, or memory is short.
  grow-Malloced :
      Returns
        (Malloced break size s bs)
        (and_then (grow_heap os total s) (λ new. hand_out_new os size new))
  unfolding use_new_block
  grow-Malloced =
      rw (grow_heap-use_new_block o h total)
        (go ((os.sbrk total s.kernel).0) ((os.sbrk total s.kernel).1) refl)
    where
      go :
          (r : Option Ptr) (k : K)
          → os.sbrk total s.kernel ≡ (r, k)
          → Returns (Malloced break size s bs) (
              and_then
                (use_new_block os total r (record s { kernel = k }))
                (λ new. hand_out_new os size new))
      go none k e =
          let q = o.sbrk_fails total s.kernel k e in
          no_memory lists refl refl
            (subst (λ (t : Ptr). IsHeap null t (record s { errno = enomem; kernel = k }) lists bs)
              (sym q) (outer-IsHeap enomem k h))
            (record { stays = λ z m ne u. (m, u, refl, refl); bytes = refl }) refl
      go (some p) k e =
          let (ep, ek) = o.sbrk_grows total p s.kernel k e in
          rw (o.sbrk_zero k, ep, ek, hand_out-handed)
            (gave top lists (bs ++ (top ∷ [])) refl
              (subst
                (λ (t : Ptr). IsHeap null t (grown size total top k s) lists (bs ++ (top ∷ [])))
                (sym ek) (grown-IsHeap size total k h aligned fits (rw ek at (o.break_le k))))
              (rw (has-snoc top top bs) (ground arith)) (ground arith) (ground arith)
              (λ z m u. apart_new z m)
              (record {
                stays = λ z m ne u.
                    let ne' = apart_new z m in
                    (
                      rw (has-snoc z top bs) (ground arith),
                      ground arith,
                      ground arith,
                      ground arith,
                    );
                bytes = refl;
              })
              refl)

  -- A free block is large enough: it is handed out, whole or cut to size.
  module _ (b k : ℕ) (s1 : State K) (k_lt : k < num_size_classes) (mem : has b (lists k) ≡ true)
      (le : total ≤ size_in s b) (r : Removed b k s s1) where
    was_free : (z : Ptr) → (s.hdr z).is_free ≡ 0 → (z == b) ≡ false
    was_free z u =
        let fb = (block_of h.free_lists k b k_lt mem).free in
        elim (Bool-cases (z == b)) [
          | inl e ↦ absurd (ground (arith, ap (λ (y : Ptr). (s.hdr y).is_free) (==→eq z b e)))
          | inr e ↦ e
        ]

    abbrev lists1 : ℕ → List Ptr
    lists1 = update lists k (erase b (lists k))

    h1 : IsHeap b top s1 lists1 bs
    h1 = take-IsHeap o h b k k_lt mem r

    hb : has b bs ≡ true
    hb = h.listed k b k_lt mem

    same_size : size_in s1 b ≡ size_in s b
    same_size = ground (arith, r.self)

    take-Malloced :
        Returns
          (Malloced break size s bs)
          (and_then (split_block b total s1) (λ _. hand_out b size))
    take-Malloced = elim (Bool-cases (leb (total + min_split) (size_in s1 b))) [
      | inl e ↦
          let large : total + min_split ≤ size_in s1 b = ground arith in
          let c = get_size_class_index (size_in s1 b - total) in
          let y = b + total in
          let (t, s2, q, ins) =
            Returns-inv (λ _. Inserted y c (cut b total s1)) (split_block b total s1)
              (split_block-Inserted b size total h1 hb aligned fits large) in
          let kernel : s2.kernel ≡ s.kernel = ins.kernel ∙ r.kernel in
          rw (q, hand_out-handed)
            (gave b (update lists1 c (y ∷ lists1 c)) (insert_after b y bs) refl
              (subst
                (λ (t : Ptr).
                  IsHeap null t (handed b size s2) (update lists1 c (y ∷ lists1 c))
                    (insert_after b y bs))
                (sym (ap break kernel)) (split-IsHeap b size total h1 hb aligned fits large ins))
              (rw (has-insert_after b b y bs) (ground (arith, hb))) (ground arith) (ground arith)
              (λ z m u. was_free z u)
              (record {
                stays = λ z m ne u.
                    let nb = was_free z u in
                    let ny : (z == y) ≡ false =
                      ne_of_has z y bs m (out_of b size total h1 hb aligned fits large) in
                    let w = r.others z nb in
                    let w' = ins.others z ny in
                    (
                      rw (has-insert_after z b y bs) (ground arith),
                      ground arith,
                      ground arith,
                      ground arith,
                    );
                bytes = ins.bytes ∙ r.bytes;
              })
              (ground (arith, ins.stats, r.stats)))
      | inr e ↦
          rw (split_block-whole b total s1 e, hand_out-handed)
            (gave b lists1 bs refl
              (subst (λ (t : Ptr). IsHeap null t (handed b size s1) lists1 bs)
                (sym (ap break r.kernel))
                (whole-IsHeap b size total h1 hb (ground (arith, same_size))))
              hb (ground arith) (ground arith) (λ z m u. was_free z u)
              (record {
                stays = λ z m ne u.
                    let nb = was_free z u in
                    let w = r.others z nb in (m, ground arith, ground arith, ground arith);
                bytes = r.bytes;
              })
              (ground (arith, r.stats)))
    ]

  pos : 0 < total
  pos = omega arith

  module _ (fuel : ℕ) (enough : (i : ℕ) → i < num_size_classes → length (lists i) < fuel) where
    after_find_fit :
        (b : Ptr) (s1 : State K)
        → BestFit o h.free_lists fuel total pos enough b s1
        → Returns (Malloced break size s bs) (
            (if b == null
                then (grow_heap os total >>= λ new. hand_out_new os size new)
                else (split_block b total >> hand_out b size))
              s1)
    after_find_fit b s1 (none_fits z same small) =
        let e : (b == null) ≡ true = ground arith in rw (e, same) grow-Malloced
    after_find_fit b s1 (best k k_lt mem le all r fl) =
        let n = block_ne_null h b (h.listed k b k_lt mem) in
        let e : (b == null) ≡ false = ground arith in rw e (take-Malloced b k s1 k_lt mem le r)

    -- A request for `size` bytes that takes a block of `total` bytes of the heap.
    pub malloc_heap-Malloced : Returns (Malloced break size s bs) (malloc_heap os fuel size total s)
    unfolding malloc_heap
    malloc_heap-Malloced =
        let (b, s1, q, p) =
          Returns-inv (BestFit o h.free_lists fuel total pos enough)
            (free_list_find_fit os fuel total s)
            (free_list_find_fit-BestFit o h.free_lists fuel total pos enough) in
        rw q (after_find_fit b s1 p)

-- For a heap in order, fuel beyond the length of every free list, and a size above 0 whose block
-- is below MMAP_THRESHOLD, my_malloc returns. Either it returns NULL with errno at ENOMEM, the
-- heap in order with the same blocks and statistics. Or it returns the payload of a block in use
-- of a heap in order, with room for the request, which is recorded in it and counted; the block
-- was no block in use before. Both times the blocks in use stay in use with their sizes and
-- requests, and no payload byte changes.
pub my_malloc-Malloced :
    {K : Type 0} {os : Os K} {break : K → Ptr} {s : State K} {lists : ℕ → List Ptr} {bs : List Ptr}
    (fuel size : ℕ)
    → IsOs os break
    → IsHeap null (break s.kernel) s lists bs
    → ((i : ℕ) → i < num_size_classes → length (lists i) < fuel)
    → 0 < size
    → total_size_of size < mmap_threshold
    → Returns (Malloced break size s bs) (my_malloc os fuel size s)
unfolding my_malloc
my_malloc-Malloced {s} fuel size o h enough pos lt =
    let (a, f, _) = total_size_lem size pos in
    let e0 : (size == 0) ≡ false = ground arith in
    let e1 : ltb (size_max - 1024) size ≡ false = ground arith in
    let e2 : leb mmap_threshold (total_size_of size) ≡ false = ground arith in
    rw (e0, e1, e2) (malloc_heap-Malloced o h size (total_size_of size) a f fuel enough)
