-- ===== src/FreeList/FindFit.antt =====
-- `free_list_find_fit` finds the best fit of all the free blocks.
use native.Mathlib.Decide.{dec_lt}
use linux_dynamic_memory_all.Prelude.{
  ℕ, zero, suc, ◌+◌, ◌-◌, ◌≡◌, ◌≤◌, ◌<◌, refl, true, false, List, arith, inl, inr,
}
use linux_dynamic_memory_all.Prelude.Tests.{◌==◌, if◌then◌else◌, Bool-cases, ==→eq}
use linux_dynamic_memory_all.Prelude.Lists.{All, All-map, erase, has, length}
use linux_dynamic_memory_all.Memory.{
  Ptr, Header, null, alloc_magic_header, num_size_classes, size_max, update, State, Os, Returns,
  Returns-inv, pure, ◌>>◌,
}
use linux_dynamic_memory_all.FreeList.{
  get_size_class_index, scan, find_from, free_list_find_fit, free_list_remove,
}
use linux_dynamic_memory_all.FreeList.Chain.{ne_null}
use linux_dynamic_memory_all.FreeList.Inv.{IsFreeBlock, IsFreeLists, block_of}
use linux_dynamic_memory_all.FreeList.Remove.{
  Removed, free_list_remove-Removed, Removed-IsFreeLists,
}
use linux_dynamic_memory_all.FreeList.SizeClass.{get_size_class_index-lt, get_size_class_index_mono}
use linux_dynamic_memory_all.FreeList.Scan.{NoBetter, Scanned, kept, found, ScanPost, scan-Scanned}
use linux_dynamic_memory_all.Kernel.{IsOs}

-- Every block of `xs` is smaller than `total`.
abbrev pub TooSmall : (Ptr → Header) → ℕ → Ptr → Type 0
TooSmall m total y = (m y).block_size < total

-- `b` is no larger than any block of `xs` that `total` fits in.
abbrev pub NoLarger : (Ptr → Header) → ℕ → Ptr → Ptr → Type 0
NoLarger m total b y = total ≤ (m y).block_size → (m b).block_size ≤ (m y).block_size

module _ {K : Type 0} {os : Os K} {break : K → Ptr} (o : IsOs os break) {s : State K}
    {lists : ℕ → List Ptr} (v : IsFreeLists (break s.kernel) s lists) (fuel total : ℕ)
    (pos : 0 < total) (enough : (i : ℕ) → i < num_size_classes → length (lists i) < fuel) where
  -- What the loop over the classes from `i` on returns.
  data FoundFrom (i : ℕ) (b : Ptr) (s' : State K) : Type 0 where
    no_fit :
        b ≡ null
        → s' ≡ s
        → ((j : ℕ) → i ≤ j → j < num_size_classes → All (TooSmall s.hdr total) (lists j))
        → FoundFrom i b s'
    fit :
        (k : ℕ)
        → i ≤ k
        → k < num_size_classes
        → has b (lists k) ≡ true
        → total ≤ (s.hdr b).block_size
        → All (NoLarger s.hdr total b) (lists k)
        → ((j : ℕ) → i ≤ j → j < k → All (TooSmall s.hdr total) (lists j))
        → Removed b k s s'
        → FoundFrom i b s'

  magics :
      (i : ℕ)
      → i < num_size_classes
      → All (λ y. (s.hdr y).magic_header ≡ alloc_magic_header) (lists i)
  magics i lt =
      All-map (IsFreeBlock (break s.kernel) s i) (λ y. (s.hdr y).magic_header ≡ alloc_magic_header)
        (lists i) (λ a h b. b.magic) (v.blocks i lt)

  scan_class :
      (i : ℕ)
      → i < num_size_classes
      → Returns
          (ScanPost os s total null size_max (lists i))
          (scan os fuel total (s.heads i) null size_max s)
  scan_class i lt =
      scan-Scanned os s fuel total null (s.heads i) null size_max (lists i) (v.chains i lt)
        (magics i lt) (enough i lt)

  -- Blocks end below the break, so none is as large as the first `min_diff`.
  too_small :
      (i : ℕ)
      → i < num_size_classes
      → All (NoBetter s.hdr total size_max) (lists i)
      → All (TooSmall s.hdr total) (lists i)
  too_small i lt all =
      All-map (NoBetter s.hdr total size_max) (TooSmall s.hdr total) (lists i)
        (λ a h nb. let b = block_of v i a lt h in ground (arith, b.within, v.top_le, nb)) all

  widen :
      (i b : ℕ) (s' : State K)
      → All (TooSmall s.hdr total) (lists i)
      → FoundFrom (i + 1) b s'
      → FoundFrom i b s'
  widen i b s' small (no_fit z same none_fit) = no_fit z same (λ j i_le j_lt.
      elim (Bool-cases (j == i)) [
        | inl e ↦ rw (==→eq j i e) small
        | inr e ↦ none_fit j (ground arith) j_lt
      ])
  widen i b s' small (fit k i_le k_lt mem le best none_fit removed) =
      fit k (omega arith) k_lt mem le best
        (λ j i_le j_lt. elim (Bool-cases (j == i)) [
          | inl e ↦ rw (==→eq j i e) small
          | inr e ↦ none_fit j (ground arith) j_lt
        ])
        removed

  next_class :
      (i b rounds : ℕ)
      → i < num_size_classes
      → i + suc rounds ≡ num_size_classes
      → Returns (FoundFrom (i + 1)) (find_from os fuel rounds (i + 1) total s)
      → Scanned s.hdr total null size_max (lists i) b
      → Returns (FoundFrom i) (
          (if b == null
              then find_from os fuel rounds (i + 1) total
              else (do free_list_remove os b; pure b))
            s)
  next_class i b rounds lt e ih (kept z all) =
      let ez : (b == null) ≡ true = ground arith in
      let (r, s', q, p) =
        Returns-inv (FoundFrom (i + 1)) (find_from os fuel rounds (i + 1) total s) ih in
      rw (ez, q) (widen i r s' (too_small i lt all) p)
  next_class i b rounds lt e ih (found mem le less all) =
      let n = ne_null s.hdr b null (s.heads i) (lists i) (v.chains i lt) mem in
      let ez : (b == null) ≡ false = ground arith in
      let (r, s', q, p) =
        Returns-inv (λ _. Removed b i s) (free_list_remove os b s)
          (free_list_remove-Removed o v b i lt mem) in
      rw (ez, q)
        (fit i (omega arith) lt mem le
          (All-map (NoBetter s.hdr total ((s.hdr b).block_size - total)) (NoLarger s.hdr total b)
            (lists i) (λ a h nb. λ fits. omega (arith, nb fits)) all)
          (λ j i_le j_lt. absurd (omega arith)) p)

  find_from-FoundFrom :
      (rounds i : ℕ)
      → i + rounds ≡ num_size_classes
      → Returns (FoundFrom i) (find_from os fuel rounds i total s)
  unfolding find_from
  find_from-FoundFrom zero i e = no_fit refl refl (λ j le lt. absurd (omega arith))
  find_from-FoundFrom (suc rounds) i e =
      let lt : i < num_size_classes = omega arith in
      let ih = find_from-FoundFrom rounds (i + 1) (omega arith) in
      let (b, s', q, (same, p)) =
        Returns-inv (ScanPost os s total null size_max (lists i))
          (scan os fuel total (s.heads i) null size_max s) (scan_class i lt) in
      rw (q, same) (next_class i b rounds lt e ih p)

  -- What `free_list_find_fit` returns. If it returns NULL, nothing has changed and every free block
  -- is smaller than `total`. Otherwise it returns a free block that `total` fits in, no larger than
  -- any other such block of any class, and has taken it out of its list.
  pub data BestFit (b : Ptr) (s' : State K) : Type 0 where
    none_fits :
        b ≡ null
        → s' ≡ s
        → ((j : ℕ) → j < num_size_classes → All (TooSmall s.hdr total) (lists j))
        → BestFit b s'
    best :
        (k : ℕ)
        → k < num_size_classes
        → has b (lists k) ≡ true
        → total ≤ (s.hdr b).block_size
        → ((j : ℕ) → j < num_size_classes → All (NoLarger s.hdr total b) (lists j))
        → Removed b k s s'
        → IsFreeLists (break s.kernel) s' (update lists k (erase b (lists k)))
        → BestFit b s'

  -- The blocks of a class below that of `total` are too small.
  below_class :
      (j : ℕ)
      → j < num_size_classes
      → j < get_size_class_index total
      → All (TooSmall s.hdr total) (lists j)
  below_class j j_lt lt =
      All-map (IsFreeBlock (break s.kernel) s j) (TooSmall s.hdr total) (lists j)
        (λ a h b. elim (dec_lt (s.hdr a).block_size total) [
          | yes p ↦ p
          | no p ↦ absurd (
              omega (
                arith,
                b.class,
                get_size_class_index_mono total (s.hdr a).block_size (omega arith),
              ))
        ])
        (v.blocks j j_lt)

  -- The blocks of a class above that of `b` are larger.
  above_class :
      (b k j : ℕ)
      → get_size_class_index (s.hdr b).block_size ≡ k
      → j < num_size_classes
      → k < j
      → All (NoLarger s.hdr total b) (lists j)
  above_class b k j e j_lt lt =
      All-map (IsFreeBlock (break s.kernel) s j) (NoLarger s.hdr total b) (lists j)
        (λ a h c fits. elim (dec_lt (s.hdr a).block_size (s.hdr b).block_size) [
          | yes p ↦ absurd (
              omega (
                arith,
                c.class,
                get_size_class_index_mono (s.hdr a).block_size (s.hdr b).block_size (omega arith),
              ))
          | no p ↦ omega arith
        ])
        (v.blocks j j_lt)

  FoundFrom-BestFit :
      (b : Ptr) (s' : State K) → FoundFrom (get_size_class_index total) b s' → BestFit b s'
  FoundFrom-BestFit b s' (no_fit z same none_fit) = none_fits z same (λ j j_lt.
      elim (dec_lt j (get_size_class_index total)) [
        | yes p ↦ below_class j j_lt p
        | no p ↦ none_fit j (omega arith) j_lt
      ])
  FoundFrom-BestFit b s' (fit k i_le k_lt mem le all none_fit removed) =
      best k k_lt mem le
        (λ j j_lt. elim (dec_lt j k) [
          | yes p ↦
              All-map (TooSmall s.hdr total) (NoLarger s.hdr total b) (lists j)
                (λ a h small fits. absurd (omega arith))
                (elim (dec_lt j (get_size_class_index total)) [
                  | yes q ↦ below_class j j_lt q
                  | no q ↦ none_fit j (omega arith) p
                ])
          | no p ↦ elim (dec_lt k j) [
            | yes q ↦ above_class b k j ((block_of v k b k_lt mem).class) j_lt q
            | no q ↦ let e : j ≡ k = omega arith in rw e all
          ]
        ])
        removed (Removed-IsFreeLists o v b k k_lt mem removed)

  -- For free lists in order, a size above 0 and fuel beyond the length of every list,
  -- free_list_find_fit returns. If it returns NULL, nothing has changed and every free block is
  -- smaller than the size. Otherwise it returns a free block that the size fits in, no larger than
  -- any other such block of any class; it is taken out of its list, and the lists are in order.
  pub free_list_find_fit-BestFit : Returns BestFit (free_list_find_fit os fuel total s)
  unfolding free_list_find_fit
  free_list_find_fit-BestFit =
      let c = get_size_class_index total in
      let lt = get_size_class_index-lt total in
      let (b, s', q, p) =
        Returns-inv (FoundFrom c) (find_from os fuel (num_size_classes - c) c total s)
          (find_from-FoundFrom (num_size_classes - c) c (omega arith)) in
      rw q (FoundFrom-BestFit b s' p)
