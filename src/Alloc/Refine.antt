-- ===== src/Alloc/Refine.antt =====
-- The calls of src/allocator/allocator.c change the heap as the abstract store of Alloc/Store.antt
-- allows.
use linux_dynamic_memory_all.Prelude.{ℕ, ◌+◌, ◌*◌, refl}
use linux_dynamic_memory_all.Memory.{Ptr, header_size, State, Os, Returns, Returns-inv}
use linux_dynamic_memory_all.Kernel.{IsOs}
use linux_dynamic_memory_all.Alloc.Malloc.{my_malloc}
use linux_dynamic_memory_all.Alloc.Free.{my_free}
use linux_dynamic_memory_all.Alloc.Realloc.{my_calloc, my_realloc}
use linux_dynamic_memory_all.Alloc.MallocLaws.{Malloced, my_malloc-Malloced}
use linux_dynamic_memory_all.Alloc.FreeLaws.{Freed, my_free-Freed_at}
use linux_dynamic_memory_all.Alloc.Relocate.{Calloced, my_calloc-Calloced}
use linux_dynamic_memory_all.Alloc.ReallocLaws.{Realloced, my_realloc-Realloced}
use linux_dynamic_memory_all.Alloc.Session.{IsEnough}
use linux_dynamic_memory_all.Alloc.Store.{
  Store, Op, ask_malloc, ask_calloc, ask_realloc, ask_free, ask_write, IsAllowed, perform,
  Represents, Refined,
}
use linux_dynamic_memory_all.Alloc.RefineNew.{malloc-Refined, calloc-Refined}
use linux_dynamic_memory_all.Alloc.RefineHeld.{free-Refined, write-Refined, realloc-Refined}

module _ {K : Type 0} {os : Os K} {break : K → Ptr} (o : IsOs os break) where
  -- For a heap in order that represents a store of arrays, each in a block in use of its own, with
  -- fuel beyond the length of every free list: my_malloc, my_calloc and my_realloc of a size above
  -- 0 whose block is below MMAP_THRESHOLD, my_free, and a write within an array, where the client
  -- names blocks that it holds, return, and the heap after it represents the store after a change
  -- that the operation may make. An allocation adds an array, all 0 for my_calloc, where there was
  -- none, or returns NULL; my_realloc moves the array, or leaves it in place, with its bytes up to
  -- the lesser length, or returns NULL; my_free drops the array; a write changes one byte of it;
  -- and all other arrays keep their lengths and bytes.
  pub perform-Refined :
      (a : Store) (s : State K) (op : Op) (fuel : ℕ)
      → Represents break a s
      → IsAllowed a op
      → IsEnough os break fuel s
      → Returns (Refined break a op) (perform os fuel op s)
  unfolding perform
  perform-Refined a s (ask_malloc size) fuel v (pos, lt) enough =
      let (p, s', q, r) =
        Returns-inv (Malloced break size s v.bs) (my_malloc os fuel size s)
          (my_malloc-Malloced fuel size o v.heap (enough v.lists v.bs v.heap) pos lt) in
      rw q (malloc-Refined a s v size p s' r)
  perform-Refined a s (ask_calloc nmemb size) fuel v (pos, lt) enough =
      let (p, s', q, r) =
        Returns-inv (Calloced break (nmemb * size) s v.bs) (my_calloc os fuel nmemb size s)
          (my_calloc-Calloced o v.heap fuel nmemb size (enough v.lists v.bs v.heap) pos lt) in
      rw q
        (calloc-Refined a s v (nmemb * size) p s' r.before refl r.malloced r.after r.zeros r.others)
  perform-Refined a s (ask_realloc x size) fuel v (b, e, pos, lt) enough =
      let hx = v.holds x b e in
      let (p, s', q, r) =
        Returns-inv (Realloced break x size s v.bs) (my_realloc os fuel (x + header_size) size s) (
          my_realloc-Realloced o v.heap x hx.mem hx.used size fuel (enough v.lists v.bs v.heap) pos
            lt) in
      rw q (realloc-Refined a s v x size p b s' e r)
  perform-Refined a s (ask_free x) fuel v (b, e) enough =
      let hx = v.holds x b e in
      let (u, s', q, r) =
        Returns-inv (λ _. Freed x (break s.kernel) s v.bs) (my_free os (x + header_size) s)
          (my_free-Freed_at o v.heap x hx.mem hx.used) in
      rw q (free-Refined a s v x b s' e r)
  perform-Refined a s (ask_write x i w) fuel v (b, e, lt) enough = write-Refined a s v x i w b e lt
