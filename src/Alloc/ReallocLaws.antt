-- ===== src/Alloc/ReallocLaws.antt =====
-- `my_realloc` of src/allocator/allocator.c for a block of the heap, on each of its paths.
use linux_dynamic_memory_all.Prelude.{
  ℕ, ◌+◌, ◌-◌, ◌≡◌, ◌≤◌, ◌<◌, inl, inr, true, false, Bool, some, List, arith, refl,
}
use linux_dynamic_memory_all.Prelude.Tests.{◌==◌, Bool-cases, if◌then◌else◌, ltb, leb}
use linux_dynamic_memory_all.Prelude.Lists.{has, length}
use linux_dynamic_memory_all.Memory.{
  Cmd, Ptr, null, header_size, size_max, mmap_threshold, num_size_classes, Stats, Os, State, pure,
  ◌>>=◌, ◌>>◌, Returns, Returns-inv,
}
use linux_dynamic_memory_all.Kernel.{IsOs}
use linux_dynamic_memory_all.Alloc.{total_size_of, min_split}
use linux_dynamic_memory_all.FreeList.{load}
use linux_dynamic_memory_all.Alloc.Malloc.{my_malloc, out_of_memory}
use linux_dynamic_memory_all.Alloc.Free.{check_block, my_free}
use linux_dynamic_memory_all.Alloc.Realloc.{
  resize_in_block, trim_block, realloc_heap, can_expand, expand_block, relocate, realloc_mapping,
  my_realloc,
}
use linux_dynamic_memory_all.Alloc.Inv.{size_in, IsHeap}
use linux_dynamic_memory_all.Alloc.Loose.{touch-IsHeap}
use linux_dynamic_memory_all.Alloc.FreeLaws.{check_block-ok}
use linux_dynamic_memory_all.Alloc.Asked.{changed}
use linux_dynamic_memory_all.Alloc.Resize.{Fitted, Resized, Fitted-Resized}
use linux_dynamic_memory_all.Alloc.Shrink.{trim_block-Fitted}
use linux_dynamic_memory_all.Alloc.Expand.{whole-Fitted, expand_block-Resized}
use linux_dynamic_memory_all.Alloc.Relocate.{Relocated, relocate-Relocated}

last_of_four :
    {A : Type 0} (P : A → Type 0) (b1 b2 b3 : Bool) (a1 a2 a3 a4 : A)
    → b1 ≡ false
    → b2 ≡ false
    → b3 ≡ false
    → P a4
    → P (if b1 then a1 else if b2 then a2 else if b3 then a3 else a4)
last_of_four P b1 b2 b3 a1 a2 a3 a4 e1 e2 e3 p = rw (e1, e2, e3) p

module _ {K : Type 0} (break : K → Ptr) where
  -- What `my_realloc` of the block `x` leads to.
  pub data Realloced (x size : ℕ) (s : State K) (bs : List Ptr) (p : Ptr) (s' : State K)
      : Type 0 where
    in_place : Resized x size (break s.kernel) s bs p s' → Realloced x size s bs p s'
    elsewhere : Relocated break x size s bs p s' → Realloced x size s bs p s'

module _ {K : Type 0} {os : Os K} {break : K → Ptr} (o : IsOs os break) {s : State K}
    {lists : ℕ → List Ptr} {bs : List Ptr} (h : IsHeap null (break s.kernel) s lists bs) (x : Ptr)
    (hx : has x bs ≡ true) (used : (s.hdr x).is_free ≡ 0) (size : ℕ) where
  abbrev total : ℕ
  total = total_size_of size

  abbrev st : Stats
  st = changed size (s.hdr x).requested_size s.stats

  held : IsHeap x (break s.kernel) s lists bs
  held =
      touch-IsHeap h s x hx (inr (refl, used)) (λ z ne. refl) refl (λ j. refl) (λ z k. refl) refl
        refl

  resize_in_block-Resized :
      total ≤ size_in s x
      → Returns
          (Resized x size (break s.kernel) s bs)
          (resize_in_block os x size total (some (break s.kernel)) s)
  unfolding resize_in_block
  resize_in_block-Resized le = elim (Bool-cases (leb (total + min_split) (size_in s x))) [
    | inl e ↦
        let (u, t, q, f) =
          Returns-inv (λ _. Fitted x size st (break s.kernel) s bs)
            (trim_block os x total (some (break s.kernel)) s)
            (trim_block-Fitted o x size total st held hx used (omega arith) (omega arith)
              (ground arith)) in
        rw (e, q) (Fitted-Resized x size {s = s} {bs = bs} t refl f)
    | inr e ↦ rw e (
        Fitted-Resized x size {s = s} {bs = bs} s refl
          (whole-Fitted x size total st held hx used (omega arith) le))
  ]

  module _ (fuel : ℕ) (enough : (i : ℕ) → i < num_size_classes → length (lists i) < fuel)
      (pos : 0 < size) (lt : total_size_of size < mmap_threshold) where
    realloc_heap-Realloced : Returns (Realloced break x size s bs) (realloc_heap os fuel x size s)
    unfolding realloc_heap resize_in_block expand_block relocate
    realloc_heap-Realloced =
        rw (o.sbrk_zero s.kernel) (elim (Bool-cases (leb total (size_in s x))) [
          | inl e ↦
              let (p, t, q, r) =
                Returns-inv (Resized x size (break s.kernel) s bs)
                  (resize_in_block os x size total (some (break s.kernel)) s)
                  (resize_in_block-Resized (ground arith)) in
              rw (e, q) (in_place r)
          | inr e ↦ elim (Bool-cases (can_expand os s x total (some (break s.kernel)))) [
            | inl f ↦
                let (p, t, q, r) =
                  Returns-inv (Resized x size (break s.kernel) s bs)
                    (expand_block os x size total s)
                    (expand_block-Resized o x size total st held hx used (omega arith) (omega arith)
                      refl (ground arith) (ground arith)) in
                rw (e, f, q) (in_place r)
            | inr f ↦
                let (p, t, q, r) =
                  Returns-inv (Relocated break x size s bs)
                    (relocate os fuel (x + header_size) (s.hdr x).requested_size size s)
                    (relocate-Relocated o h x hx used size fuel enough pos lt) in
                rw (e, f, q) (elsewhere r)
          ]
        ])

    checked-Realloced :
        (x' : Ptr)
        → x' ≡ x
        → Returns (Realloced break x size s bs) (
            (do
              check_block os x'
              h ← load x'
              if h.is_mmap == 0
                  then realloc_heap os fuel x' size
                  else realloc_mapping os fuel x' size)
              s)
    checked-Realloced x' e =
        let hp : ((s.hdr x).is_mmap == 0) ≡ true =
          let b = (h.blocks x hx).on_heap in ground arith in
        rw (e, check_block-ok o h x hx used, hp) realloc_heap-Realloced

    -- For a block in use of a heap in order, fuel beyond the length of every free list, and a size
    -- above 0 whose block is below MMAP_THRESHOLD, my_realloc of its payload passes every check
    -- and returns. Either it returns the same pointer: the block, cut or grown over the free block
    -- behind it, is in use with room for the request, which is recorded in it, the difference is
    -- counted, and no payload byte changes. Or it returns NULL with errno at ENOMEM and the old
    -- block still in use. Or it returns the payload of a block in use with room for the request,
    -- which was no block in use before and holds the old bytes up to the lesser of the two
    -- requests. The heap is in order again, and the other blocks in use stay in use with their
    -- sizes and requests.
    pub my_realloc-Realloced :
        Returns (Realloced break x size s bs) (my_realloc os fuel (x + header_size) size s)
    unfolding my_realloc
    my_realloc-Realloced =
        last_of_four {A = Cmd K Ptr} (λ r. Returns (Realloced break x size s bs) (r s))
          (x + header_size == null) (size == 0) (ltb (size_max - 1024) size)
          (my_malloc os fuel size) (do my_free os (x + header_size); pure null) out_of_memory _
          (ground arith) (ground arith) (ground arith)
          (checked-Realloced (x + header_size - header_size) (omega arith))
