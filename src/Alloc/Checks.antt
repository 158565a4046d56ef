-- ===== src/Alloc/Checks.antt =====
-- A block that is freed or resized twice, in src/allocator/allocator.c.
use linux_dynamic_memory_all.Prelude.{
  ℕ, ◌+◌, ◌-◌, ◌≡◌, ◌≤◌, ◌<◌, ◌≢◌, true, false, List, arith, refl,
}
use linux_dynamic_memory_all.Prelude.Tests.{◌==◌, ltb}
use linux_dynamic_memory_all.Prelude.Lists.{has}
use linux_dynamic_memory_all.Memory.{
  Ptr, null, header_size, size_max, State, Os, double_free, abort,
}
use linux_dynamic_memory_all.Kernel.{IsOs}
use linux_dynamic_memory_all.Alloc.Free.{check_block, my_free}
use linux_dynamic_memory_all.Alloc.Realloc.{my_realloc}
use linux_dynamic_memory_all.Alloc.Layout.{inside}
use linux_dynamic_memory_all.Alloc.Inv.{size_in, IsHeap}

module _ {K : Type 0} where
  -- In a heap in order, my_free of the payload of a free block, and my_realloc of it for a size
  -- from 1 to SIZE_MAX - 1024, abort with the message for a double free.
  pub double_free_lem :
      {os : Os K} {break : K → Ptr} {s : State K} {lists : ℕ → List Ptr} {bs : List Ptr}
      (o : IsOs os break) (h : IsHeap null (break s.kernel) s lists bs) (x fuel size : ℕ)
      → has x bs ≡ true
      → (s.hdr x).is_free ≢ 0
      → 0 < size
      → size ≤ size_max - 1024
      → (my_free os (x + header_size) s ≡ abort double_free)
        × (my_realloc os fuel (x + header_size) size s ≡ abort double_free)
  unfolding my_free my_realloc check_block
  double_free_lem {os} {break} {s} {bs} o h x fuel size hx free pos le =
      let b = h.blocks x hx in
      let i = inside (size_in s) (break s.kernel) s.heap_start x bs h.tiles hx in
      let n = h.start_ne_null in
      let e : x + header_size - header_size ≡ x = omega arith in
      let c : check_block os x s ≡ abort double_free =
        ground (arith, b.magic, b.on_heap, b.footer, o.sbrk_zero s.kernel) in
      let n1 : (x + header_size == null) ≡ false = ground arith in
      let n2 : (size == 0) ≡ false = ground arith in
      let n3 : ltb (size_max - 1024) size ≡ false = ground arith in
      (rw (n1, e, c) refl, rw (n1, n2, n3, e, c) refl)
