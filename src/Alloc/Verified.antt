-- ===== src/Alloc/Verified.antt =====
-- What `allocator_verify_integrity` of src/allocator/allocator.c has seen when it returns 0.
use linux_dynamic_memory_all.Prelude.{
  ℕ, zero, suc, ◌+◌, ◌-◌, ◌%◌, ◌≡◌, ◌≢◌, ◌<◌, ◌≤◌, inl, inr, true, false, List, [], ◌∷◌, arith,
  refl,
}
use linux_dynamic_memory_all.Prelude.Tests.{◌==◌, ltb, leb, Bool-cases}
use linux_dynamic_memory_all.Prelude.Lists.{All}
use linux_dynamic_memory_all.Memory.{
  Ptr, null, num_size_classes, overhead, alignment, size_max, alloc_magic_header, State, Os, ok,
}
use linux_dynamic_memory_all.Kernel.{IsOs}
use linux_dynamic_memory_all.FreeList.{footer_matches, free_list_verify_integrity}
use linux_dynamic_memory_all.FreeList.Verified.{
  IsWalked, Sound, Sound-weaken, Sound-found, and_then-Sound, free_list_verify_integrity-Sound,
}
use linux_dynamic_memory_all.Alloc.{allocator_verify_integrity, verify_heap, heap_block_ok}
use linux_dynamic_memory_all.Alloc.Layout.{Tiles}
use linux_dynamic_memory_all.Alloc.Inv.{size_in}

-- What the checks on a block of the heap find.
pub record IsChecked {K : Type 0} (s : State K) (x : Ptr) : Type 0 where
  pub magic : (s.hdr x).magic_header ≡ alloc_magic_header
  pub aligned : x % alignment ≡ 0
  pub size_aligned : (s.hdr x).block_size % alignment ≡ 0
  pub footer : footer_matches s x (s.hdr x).block_size ≡ true

-- The blocks from `cur` fill the memory up to `top`, and all of them are good.
pub record IsTiled {K : Type 0} (top : Ptr) (s : State K) (cur : Ptr) : Type 0 where
  pub blocks : List Ptr
  pub tiles : Tiles (size_in s) top cur blocks
  pub good : All (IsChecked s) blocks

-- Every free list ends and has good blocks, and good blocks fill the heap.
pub record IsVerified {K : Type 0} (top : Ptr) (s : State K) : Type 0 where
  pub lists : (i : ℕ) → i < num_size_classes → IsWalked top s i (s.heads i)
  pub heap : IsTiled top s s.heap_start

module _ {K : Type 0} {os : Os K} {break : K → Ptr} (o : IsOs os break) (s : State K) where
  heap_block_ok-IsChecked :
      (cur top : Ptr)
      → heap_block_ok os s cur top ≡ true
      → IsChecked s cur × (overhead ≤ (s.hdr cur).block_size) × ((s.hdr cur).block_size ≤ top - cur)
  unfolding heap_block_ok
  heap_block_ok-IsChecked cur top e = (
    record {
      magic = ground arith;
      aligned = ground arith;
      size_aligned = ground arith;
      footer = ground arith;
    },
    ground arith,
    ground arith,
  )

  verify_heap-Sound :
      (fuel top cur : ℕ) → cur ≤ top → Sound s (IsTiled top s cur) (verify_heap os fuel cur top s)
  unfolding verify_heap
  verify_heap-Sound zero top cur le = tt
  verify_heap-Sound (suc fuel) top cur le = elim (Bool-cases (ltb cur top)) [
    | inl e ↦ elim (Bool-cases (heap_block_ok os s cur top)) [
      | inl g ↦
          let (c, least, fits) = heap_block_ok-IsChecked cur top g in
          rw (e, g)
            (Sound-weaken (IsTiled top s (cur + (s.hdr cur).block_size)) (IsTiled top s cur) s
              (verify_heap os fuel (cur + (s.hdr cur).block_size) top s)
              (verify_heap-Sound fuel top (cur + (s.hdr cur).block_size) (ground arith))
              (λ t. record {
                blocks = cur ∷ t.blocks;
                tiles = (refl, least, t.tiles);
                good = (c, t.good);
              }))
      | inr g ↦ rw (e, g) (refl, tt)
    ]
    | inr e ↦ rw e (refl, record { blocks = []; tiles = ground arith; good = tt })
  ]

  -- If allocator_verify_integrity returns 0, where the heap starts at an address up to the break,
  -- then it has changed nothing; each free list, followed from its head, ends at NULL, and each of
  -- its blocks has the canaries, is marked as free, has a size within the heap and at least that
  -- of the metadata, and is where its neighbours in the list point; and from the start of the heap
  -- to the break there are blocks side by side, without a gap, each aligned and with its canaries,
  -- and with the size in its footer.
  pub allocator_verify_integrity-IsVerified :
      (fuel : ℕ) (s' : State K)
      → s.heap_start ≢ null
      → s.heap_start ≢ size_max
      → break s.kernel ≢ null
      → s.heap_start ≤ break s.kernel
      → allocator_verify_integrity os fuel s ≡ ok true s'
      → (s' ≡ s) × IsVerified (break s.kernel) s
  unfolding allocator_verify_integrity
  allocator_verify_integrity-IsVerified fuel s' n1 n2 n3 le e =
      let Lists : Type 0 =
        (i : ℕ) → i < num_size_classes → IsWalked (break s.kernel) s i (s.heads i) in
      let c1 : (s.heap_start == null) ≡ false = ground arith in
      let c2 : (s.heap_start == size_max) ≡ false = ground arith in
      let c3 : (break s.kernel == null) ≡ false = ground arith in
      let c4 : leb s.heap_start (break s.kernel) ≡ true = ground arith in
      Sound-found (IsVerified (break s.kernel) s) s s' (allocator_verify_integrity os fuel s)
        (and_then-Sound Lists (IsVerified (break s.kernel) s) s
          (free_list_verify_integrity os fuel s) _ (free_list_verify_integrity-Sound o s fuel)
          (λ ls.
            rw (o.sbrk_zero s.kernel, c1, c2, c3, c4)
              (Sound-weaken (IsTiled (break s.kernel) s s.heap_start)
                (IsVerified (break s.kernel) s) s
                (verify_heap os fuel s.heap_start (break s.kernel) s)
                (verify_heap-Sound fuel (break s.kernel) s.heap_start le)
                (λ t. record { lists = ls; heap = t })))
          (refl, tt))
        e
