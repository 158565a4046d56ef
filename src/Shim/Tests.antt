-- ===== src/Shim/Tests.antt =====
-- The theorems about src/allocator/preload_shim.c at a small heap.
use linux_dynamic_memory_all.Prelude.{◌+◌, ◌%◌, ◌-◌, ◌^◌, ◌≡◌, ◌≤◌, ◌⊎◌, ℕ, refl, false, arith}
use linux_dynamic_memory_all.Memory.{Ptr, null, alignment}
use linux_dynamic_memory_all.Alloc.Tests.{
  break_of, small, small_blocks, small_os, small_os-IsOs, small-IsHeap, small-short,
}
use linux_dynamic_memory_all.Shim.{
  Shim, Finishes, bootstrap_alloc, bootstrap_header_size, bootstrap_buf_size,
}
use linux_dynamic_memory_all.Shim.Calls.{aligned_alloc_internal}
use linux_dynamic_memory_all.Shim.Laws.{
  bootstrap_alloc-bounds, AlignedAlloced, aligned_alloc_internal-AlignedAlloced,
}

-- The bootstrap buffer is at 1 MiB, and its first chunk is taken.
abbrev small_buf : Ptr
small_buf = 1048576

abbrev small_shim : Shim ℕ
small_shim = record {
  memory = small;
  bootstrap = λ p. record { magic = 0; size = 0 };
  bootstrap_offset = 32;
  in_allocator = false;
}

bootstrap_alloc-bounds_example :
    Finishes
      (λ p s'.
        (small_shim.bootstrap_offset ≤ s'.bootstrap_offset)
        × (s'.bootstrap_offset % alignment ≡ 0)
        × (s'.memory ≡ small_shim.memory)
        × ((p ≡ null)
            ⊎ ((p % alignment ≡ 0)
                × (small_buf + small_shim.bootstrap_offset + bootstrap_header_size ≤ p)
                × (p + 100 ≤ small_buf + s'.bootstrap_offset)
                × (s'.bootstrap_offset ≤ bootstrap_buf_size)
                × ((s'.bootstrap (p - bootstrap_header_size)).size ≡ 100))))
      (bootstrap_alloc small_buf 100 small_shim)
bootstrap_alloc-bounds_example =
    bootstrap_alloc-bounds small_buf 100 small_shim refl refl (ground arith)

aligned_alloc_internal-AlignedAlloced_example :
    Finishes
      (AlignedAlloced break_of (2 ^ 5) 100 100 small small_blocks)
      (aligned_alloc_internal small_os small_buf 2 (2 ^ 5) 100 100 small_shim)
aligned_alloc_internal-AlignedAlloced_example =
    aligned_alloc_internal-AlignedAlloced small_os-IsOs small_shim small-IsHeap 5 100 100
      (ground arith) (ground arith) small_buf 2 refl small-short (ground arith)
