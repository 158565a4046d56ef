-- ===== src/Alloc/Tests.antt =====
-- A small heap, a kernel, and the theorems about src/allocator at them.
use linux_dynamic_memory_all.Prelude.{
  ℕ, ◌+◌, ◌≡◌, ◌<◌, refl, true, false, none, some, List, [], ◌∷◌, arith, inl, inr, ap,
}
use linux_dynamic_memory_all.Prelude.Tests.{◌==◌, if◌then◌else◌, Bool-cases, ==→eq, leb}
use linux_dynamic_memory_all.Prelude.Lists.{length, All-has}
use linux_dynamic_memory_all.Memory.{
  Ptr, null, alloc_magic_header, alloc_magic_footer, Header, Footer, State, Os, Returns,
  num_size_classes,
}
use linux_dynamic_memory_all.Memory.{header_size, update, abort, double_free}
use linux_dynamic_memory_all.Prelude.Lists.{erase}
use linux_dynamic_memory_all.Kernel.{IsOs}
use linux_dynamic_memory_all.FreeList.{
  get_size_class_index, free_list_insert, free_list_remove, free_list_find_fit,
}
use linux_dynamic_memory_all.FreeList.Insert.{Inserted, IsLoose, free_list_insert-IsFreeLists}
use linux_dynamic_memory_all.FreeList.Remove.{Removed, free_list_remove-IsFreeLists}
use linux_dynamic_memory_all.FreeList.FindFit.{BestFit, free_list_find_fit-BestFit}
use linux_dynamic_memory_all.FreeList.Inv.{IsFreeLists}
use linux_dynamic_memory_all.Alloc.{zero_stats}
use linux_dynamic_memory_all.Alloc.Malloc.{my_malloc}
use linux_dynamic_memory_all.Alloc.Free.{my_free}
use linux_dynamic_memory_all.Alloc.MallocLaws.{Malloced, my_malloc-Malloced}
use linux_dynamic_memory_all.Alloc.FreeLaws.{Freed, my_free-Freed_at}
use linux_dynamic_memory_all.Alloc.Realloc.{my_calloc, my_realloc}
use linux_dynamic_memory_all.Alloc.Relocate.{Calloced, my_calloc-Calloced}
use linux_dynamic_memory_all.Alloc.ReallocLaws.{Realloced, my_realloc-Realloced}
use linux_dynamic_memory_all.Alloc.Checks.{double_free_lem}
use linux_dynamic_memory_all.Alloc.Verified.{IsVerified, allocator_verify_integrity-IsVerified}
use linux_dynamic_memory_all.Alloc.Verify.{allocator_verify_integrity-ok}
use linux_dynamic_memory_all.Alloc.Inv.{IsHeap, IsHeapBlock}

-- The break stops at 64 KiB.
abbrev limit : ℕ
limit = 65536

-- The kernel's state is the break.
abbrev pub break_of : ℕ → Ptr
break_of k = if leb k limit then k else limit

-- There are no mappings.
abbrev pub small_os : Os ℕ
small_os = record {
  sbrk = λ n k.
      if n == 0
      then (some (break_of k), k)
      else if leb (break_of k + n) limit
      then (some (break_of k), break_of k + n)
      else (none, k);
  brk = λ p k. if leb p limit then (true, p) else (false, k);
  mmap = λ n k. (none, k);
  munmap = λ p n k. (true, k);
  mremap = λ p n m k. (none, k);
}

pub small_os-IsOs : IsOs small_os break_of
small_os-IsOs = record {
  sbrk_zero = λ k. refl;
  break_le = λ k. ground arith;
  sbrk_grows = λ n p k k' e. ground arith;
  sbrk_fails = λ n k k' e. ground arith;
  brk_sets = λ p k k' e. ground arith;
  brk_fails = λ p k k' e. ground arith;
  mmap_keeps = λ n k. refl;
  munmap_keeps = λ p n k. refl;
  mremap_keeps = λ p n m k. refl;
}

-- Three blocks, with headers at 4096, 4176 and 4352; the middle one is free. The break is at 4432.
abbrev block_at : ℕ → ℕ → ℕ → Header
block_at free requested size = record {
  magic_header = alloc_magic_header;
  is_free = free;
  requested_size = requested;
  block_size = size;
  is_mmap = 0;
  next = null;
  prev = null;
}

abbrev small_hdr : Ptr → Header
small_hdr p =
    if p == 4096
    then block_at 0 10 80
    else if p == 4176
    then block_at 1 100 176
    else if p == 4352
    then block_at 0 16 80
    else (record (block_at 0 0 0) { magic_header = 0 })

abbrev small_ftr : Ptr → Footer
small_ftr p =
    if p == 4160
    then record { magic_footer = alloc_magic_footer; block_size = 80 }
    else if p == 4336
    then record { magic_footer = alloc_magic_footer; block_size = 176 }
    else if p == 4416
    then record { magic_footer = alloc_magic_footer; block_size = 80 }
    else record { magic_footer = 0; block_size = 0 }

abbrev small_heads : ℕ → Ptr
small_heads i = if i == 1 then 4176 else null

abbrev pub small_lists : ℕ → List Ptr
small_lists i = if i == 1 then 4176 ∷ [] else []

abbrev pub small : State ℕ
small = record {
  hdr = small_hdr;
  ftr = small_ftr;
  bytes = λ p. 0;
  heads = small_heads;
  heap_start = 4096;
  initial_break = 4096;
  last_allocator_break = 4432;
  stats = record zero_stats { total_allocated = 126; total_freed = 100; current_heap_size = 336 };
  errno = 0;
  kernel = 4432;
}

abbrev pub small_blocks : List Ptr
small_blocks = 4096 ∷ 4176 ∷ 4352 ∷ []

class_176 : get_size_class_index 176 ≡ 1
unfolding get_size_class_index
class_176 = refl

small-IsFreeLists : IsFreeLists (break_of small.kernel) small small_lists
small-IsFreeLists = record {
  top_le = ground arith;
  chains = λ i lt. elim (Bool-cases (i == 1)) [
    | inl e ↦ rw e (refl, ground arith, refl, refl, refl)
    | inr e ↦ rw e refl
  ];
  blocks = λ i lt. elim (Bool-cases (i == 1)) [
    | inl e ↦ rw e (
      record {
        magic = refl;
        free = refl;
        class = let p = ==→eq i 1 e in ground (arith, p, class_176);
        least = ground arith;
        within = ground arith;
        footer = refl;
      },
      tt,
    )
    | inr e ↦ rw e tt
  ];
}

pub small-IsHeap : IsHeap null (break_of small.kernel) small small_lists small_blocks
small-IsHeap = record {
  start_ne_null = ground arith;
  initial_ne_null = ground arith;
  top_aligned = refl;
  tiles = (refl, ground arith, (refl, ground arith, (refl, ground arith, refl)));
  blocks = λ x h.
      All-has (IsHeapBlock small) x small_blocks
        (
          record {
            magic = refl;
            aligned = refl;
            size_aligned = refl;
            on_heap = refl;
            footer = refl;
          },
          (
            record {
              magic = refl;
              aligned = refl;
              size_aligned = refl;
              on_heap = refl;
              footer = refl;
            },
            (
              record {
                magic = refl;
                aligned = refl;
                size_aligned = refl;
                on_heap = refl;
                footer = refl;
              },
              tt,
            ),
          ),
        )
        h;
  fits = λ x h ne u. ground arith;
  free_lists = small-IsFreeLists;
  listed = λ i x lt h. ground arith;
  free_listed = λ x h ne u. ground (arith, class_176, ap get_size_class_index);
  loose_out = λ i lt. ground arith;
}

pub small-short : (i : ℕ) → i < num_size_classes → length (small_lists i) < 2
small-short i lt = ground arith

my_malloc-Malloced_example :
    Returns (Malloced break_of 20 small small_blocks) (my_malloc small_os 2 20 small)
my_malloc-Malloced_example =
    my_malloc-Malloced 2 20 small_os-IsOs small-IsHeap small-short (ground arith) (ground arith)

my_free-Freed_at_example :
    Returns (λ _. Freed 4096 4432 small small_blocks) (my_free small_os (4096 + header_size) small)
my_free-Freed_at_example = my_free-Freed_at small_os-IsOs small-IsHeap 4096 refl refl

some_bytes : 0 < 100
some_bytes = ground arith

free_list_find_fit-BestFit_example :
    Returns
      (BestFit small_os-IsOs small-IsFreeLists 2 100 some_bytes small-short)
      (free_list_find_fit small_os 2 100 small)
free_list_find_fit-BestFit_example =
    free_list_find_fit-BestFit small_os-IsOs small-IsFreeLists 2 100 some_bytes small-short

free_list_remove-IsFreeLists_example :
    Returns
      (λ _ s'.
        Removed 4176 1 small s'
        × IsFreeLists 4432 s' (update small_lists 1 (erase 4176 (small_lists 1))))
      (free_list_remove small_os 4176 small)
free_list_remove-IsFreeLists_example =
    free_list_remove-IsFreeLists small_os-IsOs small-IsFreeLists 4176 1 (ground arith) refl

small-IsLoose : IsLoose 4432 small small_lists 4096
small-IsLoose = record {
  ne_null = ground arith;
  magic = refl;
  least = ground arith;
  within = ground arith;
  footer = refl;
  out = λ j lt. ground arith;
}

free_list_insert-IsFreeLists_example :
    Returns
      (λ _ s'.
        Inserted 4096 (get_size_class_index 80) small s'
        × IsFreeLists 4432 s' (
            update small_lists
              (get_size_class_index 80)
              (4096 ∷ small_lists (get_size_class_index 80))))
      (free_list_insert 4096 small)
free_list_insert-IsFreeLists_example =
    free_list_insert-IsFreeLists small-IsFreeLists 4096 small-IsLoose

my_realloc-Realloced_example :
    Returns
      (Realloced break_of 4352 200 small small_blocks)
      (my_realloc small_os 2 (4352 + header_size) 200 small)
my_realloc-Realloced_example =
    my_realloc-Realloced small_os-IsOs small-IsHeap 4352 refl refl 200 2 small-short (ground arith)
      (ground arith)

my_calloc-Calloced_example :
    Returns (Calloced break_of 12 small small_blocks) (my_calloc small_os 2 3 4 small)
my_calloc-Calloced_example =
    my_calloc-Calloced small_os-IsOs small-IsHeap 2 3 4 small-short (ground arith) (ground arith)

double_free_lem_example :
    (my_free small_os (4176 + header_size) small ≡ abort double_free)
    × (my_realloc small_os 2 (4176 + header_size) 10 small ≡ abort double_free)
double_free_lem_example =
    double_free_lem small_os-IsOs small-IsHeap 4176 2 10 refl (ground arith) (ground arith)
      (ground arith)

allocator_verify_integrity-IsVerified_example :
    (small ≡ small) × IsVerified (break_of small.kernel) small
allocator_verify_integrity-IsVerified_example =
    allocator_verify_integrity-IsVerified small_os-IsOs small 4 small (ground arith) (ground arith)
      (ground arith) (ground arith)
      (allocator_verify_integrity-ok 4 small_os-IsOs small-IsHeap (λ i lt. ground arith)
        (ground arith))
