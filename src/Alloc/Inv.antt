-- ===== src/Alloc/Inv.antt =====
-- The invariant of the allocator's heap: headers, footers, layout and free lists agree.
use linux_dynamic_memory_all.Prelude.{ℕ, ◌+◌, ◌%◌, ◌≡◌, ◌≤◌, ◌<◌, ◌≢◌, true, false, List}
use linux_dynamic_memory_all.Prelude.Tests.{◌==◌}
use linux_dynamic_memory_all.Prelude.Lists.{has}
use linux_dynamic_memory_all.Memory.{
  Ptr, null, alloc_magic_header, alignment, overhead, num_size_classes, State,
}
use linux_dynamic_memory_all.FreeList.{get_size_class_index, footer_matches}
use linux_dynamic_memory_all.FreeList.Inv.{IsFreeLists}
use linux_dynamic_memory_all.Alloc.Layout.{Tiles}

module _ {K : Type 0} where
  abbrev pub size_in : State K → Ptr → ℕ
  size_in s x = (s.hdr x).block_size

  -- A block obtained from `sbrk`, free or in use, with its canaries in place.
  pub record IsHeapBlock (s : State K) (x : Ptr) : Type 0 where
    pub magic : (s.hdr x).magic_header ≡ alloc_magic_header
    pub aligned : x % alignment ≡ 0
    pub size_aligned : (s.hdr x).block_size % alignment ≡ 0
    pub on_heap : (s.hdr x).is_mmap ≡ 0
    pub footer : footer_matches s x (s.hdr x).block_size ≡ true

  -- The blocks `bs` fill the heap from `heap_start` to the break `top`, and `lists` are the free
  -- ones by class. The block `loose` is exempt: an operation holds it between two states; between
  -- operations `loose` is NULL, and no block is exempt.
  pub record IsHeap (loose top : Ptr) (s : State K) (lists : ℕ → List Ptr) (bs : List Ptr)
      : Type 0 where
    pub start_ne_null : s.heap_start ≢ null
    pub initial_ne_null : s.initial_break ≢ null
    pub top_aligned : top % alignment ≡ 0
    pub tiles : Tiles (size_in s) top s.heap_start bs
    pub blocks : (x : Ptr) → has x bs ≡ true → IsHeapBlock s x
    -- What is in use has room for what was asked for.
    pub fits :
        (x : Ptr)
        → has x bs ≡ true
        → (x == loose) ≡ false
        → (s.hdr x).is_free ≡ 0
        → (s.hdr x).requested_size + overhead ≤ (s.hdr x).block_size
    pub free_lists : IsFreeLists top s lists
    -- What a list holds is a block of the heap, and each free block is in the list of its class.
    pub listed : (i : ℕ) (x : Ptr) → i < num_size_classes → has x (lists i) ≡ true → has x bs ≡ true
    pub free_listed :
        (x : Ptr)
        → has x bs ≡ true
        → (x == loose) ≡ false
        → ((s.hdr x).is_free == 0) ≡ false
        → has x (lists (get_size_class_index (s.hdr x).block_size)) ≡ true
    pub loose_out : (i : ℕ) → i < num_size_classes → has loose (lists i) ≡ false
