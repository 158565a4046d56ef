-- ===== src/Alloc/Verify.antt =====
-- `allocator_verify_integrity` of src/allocator/allocator.c.
use linux_dynamic_memory_all.Prelude.{
  ℕ, zero, suc, ◌+◌, ◌≡◌, ◌≤◌, ◌<◌, true, false, List, [], ◌∷◌, arith, refl,
}
use linux_dynamic_memory_all.Prelude.Tests.{◌==◌, leb, ltb}
use linux_dynamic_memory_all.Prelude.Lists.{has, length}
use linux_dynamic_memory_all.Memory.{Ptr, null, overhead, num_size_classes, size_max, State, Os, ok}
use linux_dynamic_memory_all.Kernel.{IsOs}
use linux_dynamic_memory_all.FreeList.Verify.{free_list_verify_integrity-ok}
use linux_dynamic_memory_all.Alloc.{allocator_verify_integrity, verify_heap, heap_block_ok}
use linux_dynamic_memory_all.Alloc.Layout.{Tiles, inside, start_le}
use linux_dynamic_memory_all.Alloc.Inv.{size_in, IsHeap, IsHeapBlock}

module _ {K : Type 0} (os : Os K) {s : State K} where
  block_ok :
      (b top : ℕ)
      → IsHeapBlock s b
      → overhead ≤ size_in s b
      → b + size_in s b ≤ top
      → heap_block_ok os s b top ≡ true
  unfolding heap_block_ok
  block_ok b top g least le = ground (arith, g.magic, g.aligned, g.size_aligned, g.footer)

  -- The loop over the blocks from `cur` to the break.
  verify_heap-ok :
      (fuel top cur : ℕ) (bs : List Ptr)
      → Tiles (size_in s) top cur bs
      → ((x : Ptr) → has x bs ≡ true → IsHeapBlock s x)
      → length bs < fuel
      → verify_heap os fuel cur top s ≡ ok true s
  unfolding verify_heap
  verify_heap-ok zero top cur bs t good lt = absurd (omega arith)
  verify_heap-ok (suc fuel) top cur [] t good lt =
      let e : ltb cur top ≡ false = ground arith in rw e refl
  verify_heap-ok (suc fuel) top cur (b ∷ bs) (at, least, rest) good lt =
      let i = inside (size_in s) top cur b (b ∷ bs) (at, least, rest) (ground arith) in
      let e : ltb b top ≡ true = ground arith in
      let g = good b (ground arith) in
      let ok_b : heap_block_ok os s b top ≡ true = block_ok b top g least (ground arith) in
      let ih =
        verify_heap-ok fuel top (b + size_in s b) bs rest (λ x h. good x (ground arith))
          (omega arith) in
      rw (at, e, ok_b, ih) refl

-- For a heap in order and fuel beyond the number of blocks and the length of every free list,
-- allocator_verify_integrity returns 0 and changes nothing.
pub allocator_verify_integrity-ok :
    {K : Type 0} {os : Os K} {break : K → Ptr} {s : State K} {lists : ℕ → List Ptr} {bs : List Ptr}
    (fuel : ℕ)
    → IsOs os break
    → IsHeap null (break s.kernel) s lists bs
    → ((i : ℕ) → i < num_size_classes → length (lists i) < fuel)
    → length bs < fuel
    → allocator_verify_integrity os fuel s ≡ ok true s
unfolding allocator_verify_integrity
allocator_verify_integrity-ok {os} {break} {s} {bs} fuel o h enough lt =
    let le = start_le (size_in s) (break s.kernel) s.heap_start bs h.tiles in
    let n = h.start_ne_null in
    let a = h.top_aligned in
    let l = h.free_lists.top_le in
    let e = o.sbrk_zero s.kernel in
    let c1 : (s.heap_start == null) ≡ false = ground arith in
    let c2 : (s.heap_start == size_max) ≡ false = ground arith in
    let c3 : (break s.kernel == null) ≡ false = ground arith in
    let c4 : leb s.heap_start (break s.kernel) ≡ true = ground arith in
    rw (free_list_verify_integrity-ok o h.free_lists fuel enough, e, c1, c2, c3, c4)
      (verify_heap-ok os fuel (break s.kernel) s.heap_start bs h.tiles h.blocks lt)
