-- ===== src/Shim/Laws.antt =====
-- The bootstrap buffer and aligned allocation of src/allocator/preload_shim.c.
use mathlib.Core.Path.{subst}
use linux_dynamic_memory_all.Alloc.Loose.{block_ne_null}
use native.Mathlib.Nat.{
  one-le-pow, mod-add-div, mod-lt, mul-mod_right, mod-mod_of_dvd, two-pow-succ, dvd-mul_right,
}
use linux_dynamic_memory_all.Prelude.{
  ℕ, zero, suc, ◌+◌, ◌-◌, ◌*◌, ◌/◌, ◌%◌, ◌^◌, ◌≡◌, ◌≤◌, ◌<◌, ◌⊎◌, inl, inr, true, false, some, List,
  arith, refl, sym, ap, ◌∙◌,
}
use linux_dynamic_memory_all.Prelude.Tests.{◌==◌, if◌then◌else◌, Bool-cases, ltb}
use linux_dynamic_memory_all.Prelude.Lists.{has, ne_of_has, length}
use linux_dynamic_memory_all.Memory.{
  Ptr, null, size_max, size_mod, header_size, mmap_threshold, num_size_classes, alignment,
  alloc_magic_header, State, Os, Header, update, Returns-inv,
}
use linux_dynamic_memory_all.Kernel.{IsOs}
use linux_dynamic_memory_all.FreeList.Inv.{IsFreeLists-frame}
use linux_dynamic_memory_all.Alloc.{total_size_of}
use linux_dynamic_memory_all.Alloc.Layout.{Tiles-frame, inside, apart}
use linux_dynamic_memory_all.Alloc.Inv.{size_in, IsHeap}
use linux_dynamic_memory_all.Alloc.Malloc.{my_malloc}
use linux_dynamic_memory_all.Alloc.MallocLaws.{Malloced, no_memory, gave, my_malloc-Malloced}
use linux_dynamic_memory_all.Shim.{
  bootstrap_buf_size, aligned_block_magic, bootstrap_header_size, Shim, Finishes, return,
  bootstrap_alloc, is_aligned_ptr,
}
use linux_dynamic_memory_all.Prelude.Bits.{bit_and, bit_and-mask}
use linux_dynamic_memory_all.Shim.Calls.{align_up, malloc, aligned_alloc_internal, write_aligned}

-- For a buffer and an offset that are multiples of 16, and an offset that is far from wrapping,
-- bootstrap_alloc returns, leaves the heap alone, and the offset does not fall and stays a
-- multiple of 16. It returns NULL or a multiple of 16 whose header and bytes lie in the buffer
-- between the old offset and the new one, with the size recorded before it.
pub bootstrap_alloc-bounds :
    {K : Type 0} (buf size : ℕ) (s : Shim K)
    → buf % alignment ≡ 0
    → s.bootstrap_offset % alignment ≡ 0
    → s.bootstrap_offset + 2 * bootstrap_buf_size < size_mod
    → Finishes
        (λ p s'.
          (s.bootstrap_offset ≤ s'.bootstrap_offset)
          × (s'.bootstrap_offset % alignment ≡ 0)
          × (s'.memory ≡ s.memory)
          × ((p ≡ null)
              ⊎ ((p % alignment ≡ 0)
                  × (buf + s.bootstrap_offset + bootstrap_header_size ≤ p)
                  × (p + size ≤ buf + s'.bootstrap_offset)
                  × (s'.bootstrap_offset ≤ bootstrap_buf_size)
                  × ((s'.bootstrap (p - bootstrap_header_size)).size ≡ size))))
        (bootstrap_alloc buf size s)
unfolding bootstrap_alloc
bootstrap_alloc-bounds buf size s a b lt = ground arith

-- For an alignment 2 ^ k with k below 64 and an address that is at least the alignment below
-- SIZE_MAX, the rounding of aligned_alloc_internal gives the least multiple of the alignment from
-- the address on: it is at least the address, less than the alignment above it, and a multiple of
-- the alignment.
pub align_up_lem :
    (raw k : ℕ)
    → k < 64
    → raw + 2 ^ k ≤ size_max
    → (raw ≤ align_up raw (2 ^ k))
      × (align_up raw (2 ^ k) < raw + 2 ^ k)
      × (align_up raw (2 ^ k) % 2 ^ k ≡ 0)
unfolding align_up
align_up_lem raw k lt le =
    let pos = one-le-pow k 2 (omega arith) in
    let x = raw + 2 ^ k - 1 in
    let e1 : (raw + 2 ^ k - 1) % size_mod ≡ raw + 2 ^ k - 1 = omega arith in
    let e2 : size_max - (2 ^ k - 1) ≡ 2 ^ 64 - 2 ^ k = omega arith in
    let m : bit_and 64 (raw + 2 ^ k - 1) (2 ^ 64 - 2 ^ k) ≡ x - x % 2 ^ k =
      bit_and-mask 64 k x (omega arith) (omega arith) in
    let d : x % 2 ^ k + 2 ^ k * (x / 2 ^ k) ≡ x = mod-add-div x (2 ^ k) in
    let l : x % 2 ^ k < 2 ^ k = mod-lt x pos in
    let q : x - x % 2 ^ k ≡ 2 ^ k * (x / 2 ^ k) = omega arith in
    rw (e1, e2, m)
      (omega arith, omega arith, ap (λ (y : ℕ). y % 2 ^ k) q ∙ mul-mod_right (2 ^ k) (x / 2 ^ k))

module _ {K : Type 0} {top : Ptr} {s : State K} {lists : ℕ → List Ptr} {bs : List Ptr}
    (h : IsHeap null top s lists bs) (a : Ptr) (v : Header) (out : has a bs ≡ false) where
  kept : (z : Ptr) → has z bs ≡ true → update s.hdr a v z ≡ s.hdr z
  kept z m = let ne = ne_of_has z a bs m out in ground arith

  -- A write to the header view where no block begins leaves the heap in order.
  interior-IsHeap : IsHeap null top (record s { hdr = update s.hdr a v }) lists bs
  interior-IsHeap = record {
    start_ne_null = h.start_ne_null;
    initial_ne_null = h.initial_ne_null;
    top_aligned = h.top_aligned;
    tiles =
        Tiles-frame (size_in s) (size_in (record s { hdr = update s.hdr a v })) top s.heap_start bs
          (λ z m. ap (λ (k : Header). k.block_size) (kept z m)) h.tiles;
    blocks = λ z m. let b = h.blocks z m in ground (arith, kept z m);
    fits = λ z m ne fr. ground (arith, kept z m, h.fits z m ne);
    free_lists =
        IsFreeLists-frame top top s (record s { hdr = update s.hdr a v }) lists (omega arith)
          h.free_lists.top_le (λ i. refl) (λ i z lt m. (kept z (h.listed i z lt m), refl))
          h.free_lists;
    listed = h.listed;
    free_listed = λ z m ne fr.
        let l = h.free_listed z m ne (ground (arith, kept z m)) in
        let c = ap (λ (k : Header). k.block_size) (kept z m) in rw (kept z m) l;
    loose_out = h.loose_out;
  }

module _ {K : Type 0} (break : K → Ptr) where
  -- What an aligned allocation leads to. Either it returns NULL. Or the pointer is a multiple of the
  -- alignment, the bytes asked for lie in the payload of a block in use of a heap in order, which was
  -- no block in use before, and what `free` reads before the pointer names that block.
  pub data AlignedAlloced (align alloc_size req_size : ℕ) (s : State K) (bs : List Ptr) (p : Ptr)
      (s' : Shim K) : Type 0 where
    no_block :
        p ≡ null
        → Malloced break (alloc_size + align + header_size) s bs null s'.memory
        → AlignedAlloced align alloc_size req_size s bs p s'
    aligned_block :
        (b : Ptr) (lists' : ℕ → List Ptr) (bs' : List Ptr)
        → IsHeap null (break s'.memory.kernel) s'.memory lists' bs'
        → has b bs' ≡ true
        → (s'.memory.hdr b).is_free ≡ 0
        → ((z : Ptr) → has z bs ≡ true → (s.hdr z).is_free ≡ 0 → (z == b) ≡ false)
        → p % align ≡ 0
        → b + header_size + header_size ≤ p
        → p + alloc_size ≤ b + header_size + (s'.memory.hdr b).requested_size
        → is_aligned_ptr s'.memory p ≡ some (b, req_size)
        → s'.in_allocator ≡ false
        → AlignedAlloced align alloc_size req_size s bs p s'

-- What `is_aligned_ptr` finds before a pointer whose header was written for the block `b`.
is_aligned_ptr-found :
    {K : Type 0} (m : State K) (ptr b req : ℕ)
    → (m.hdr (ptr - header_size)).magic_header ≡ aligned_block_magic
    → (m.hdr (ptr - header_size)).requested_size ≡ ptr - b
    → (m.hdr (ptr - header_size)).block_size ≡ req
    → b + header_size + header_size ≤ ptr
    → ptr % 8 ≡ 0
    → (m.hdr b).magic_header ≡ alloc_magic_header
    → is_aligned_ptr m ptr ≡ some (b, req)
unfolding is_aligned_ptr
is_aligned_ptr-found m ptr b req e1 e2 e3 le mult g =
    let d : ptr - (ptr - b) ≡ b = omega arith in rw (e1, e2, e3, d, g) (ground arith)

-- A multiple of a power of two from 8 on is a multiple of 8.
eight : (k p : ℕ) → 3 ≤ k → p % 2 ^ k ≡ 0 → p % 8 ≡ 0
eight zero p le e = absurd (omega arith)
eight (suc zero) p le e = absurd (omega arith)
eight (suc (suc zero)) p le e = absurd (omega arith)
eight (suc (suc (suc j))) p le e =
    let d1 = two-pow-succ (suc (suc j)) in
    let d2 = two-pow-succ (suc j) in
    let d3 = two-pow-succ j in
    let f : 2 ^ suc (suc (suc j)) ≡ 8 * 2 ^ j = omega arith in
    let e' : p % (8 * 2 ^ j) ≡ 0 = ap (λ (y : ℕ). p % y) (sym f) ∙ e in
    let m = mod-mod_of_dvd 8 {b = 8 * 2 ^ j} p (dvd-mul_right 8 (2 ^ j)) in
    sym m ∙ ap (λ (y : ℕ). y % 8) e'

module _ {K : Type 0} {os : Os K} {break : K → Ptr} (o : IsOs os break) (s : Shim K)
    {lists : ℕ → List Ptr} {bs : List Ptr}
    (h : IsHeap null (break s.memory.kernel) s.memory lists bs) (k alloc_size req_size : ℕ)
    (lo : 3 ≤ k) (hi : k < 64) where
  -- The header is written in the new block.
  written :
      (p : Ptr) (m : State K)
      → Malloced break (alloc_size + 2 ^ k + header_size) s.memory bs p m
      → Finishes (AlignedAlloced break (2 ^ k) alloc_size req_size s.memory bs) (
          (if p == null then return null else write_aligned p (2 ^ k) req_size)
            (record s { memory = m; in_allocator = false }))
  unfolding write_aligned
  written p m (no_memory lists1 z e h1 same st) =
      let n : (p == null) ≡ true = ground arith in
      rw n (
        no_block refl (
          subst (λ (q : Ptr). Malloced break (alloc_size + 2 ^ k + header_size) s.memory bs q m) z
            (no_memory lists1 z e h1 same st)))
  written p m (gave b lists1 bs1 at h1 hb ub rb fresh same st) =
      let n : (p == null) ≡ false = ground arith in
      let pos = one-le-pow k 2 (omega arith) in
      let i = inside (size_in m) (break m.kernel) m.heap_start b bs1 h1.tiles hb in
      let fit = h1.fits b hb (let z = block_ne_null h1 b hb in ground arith) ub in
      let top = h1.free_lists.top_le in
      let (up, down, mult) = align_up_lem (p + header_size) k hi (omega arith) in
      let q = align_up (p + header_size) (2 ^ k) in
      let out : has (q - header_size) bs1 ≡ false = elim (Bool-cases (has (q - header_size) bs1)) [
        | inl y ↦
            let iq =
              inside (size_in m) (break m.kernel) m.heap_start (q - header_size) bs1 h1.tiles y in
            absurd (
              ground (
                arith,
                apart (size_in m) (break m.kernel) m.heap_start (q - header_size) b bs1 h1.tiles y
                    hb,
              ))
        | inr y ↦ y
      ] in
      let g = (h1.blocks b hb).magic in
      rw n (
        aligned_block b lists1 bs1 (interior-IsHeap h1 (q - header_size) _ out) hb (ground arith)
          fresh mult (omega arith) (ground arith)
          (let ei = eight k q lo mult in
            is_aligned_ptr-found _ q b req_size (ground arith) (ground arith) (ground arith)
              (omega arith) ei (ground arith))
          refl)

  -- For a heap in order, outside the allocator, fuel beyond the length of every free list, an
  -- alignment 2 ^ k with k from 3 to 63, and a total below MMAP_THRESHOLD, aligned_alloc_internal
  -- returns. It returns NULL because my_malloc of the total found no memory, or a multiple of the
  -- alignment: the bytes asked for lie in the payload of a block in use of a heap in order, which
  -- was no block in use before, and the header before the pointer leads is_aligned_ptr to that
  -- block.
  pub aligned_alloc_internal-AlignedAlloced :
      (buf fuel : ℕ)
      → s.in_allocator ≡ false
      → ((i : ℕ) → i < num_size_classes → length (lists i) < fuel)
      → total_size_of (alloc_size + 2 ^ k + header_size) < mmap_threshold
      → Finishes
          (AlignedAlloced break (2 ^ k) alloc_size req_size s.memory bs)
          (aligned_alloc_internal os buf fuel (2 ^ k) alloc_size req_size s)
  unfolding aligned_alloc_internal malloc
  aligned_alloc_internal-AlignedAlloced buf fuel idle enough small =
      let pos = one-le-pow k 2 (omega arith) in
      let e : ltb (size_max - 2 ^ k - header_size) alloc_size ≡ false = ground arith in
      let (p, m, q, r) =
        Returns-inv (Malloced break (alloc_size + 2 ^ k + header_size) s.memory bs)
          (my_malloc os fuel (alloc_size + 2 ^ k + header_size) s.memory)
          (my_malloc-Malloced fuel (alloc_size + 2 ^ k + header_size) o h enough (omega arith)
            small) in
      rw (e, idle, q) (written p m r)
