-- ===== src/Alloc/Relocate.antt =====
-- `my_calloc`, and the relocation of `my_realloc`, of src/allocator/allocator.c.
use mathlib.Core.Path.{subst}
use native.Mathlib.Nat.{le-div_iff_mul-le}
use linux_dynamic_memory_all.Prelude.{
  ℕ, ◌+◌, ◌*◌, ◌/◌, ◌%◌, ◌≡◌, ◌≤◌, ◌<◌, ◌≢◌, ◌⊎◌, inl, inr, true, false, List, arith, refl, ap, sym,
  ◌∙◌,
}
use linux_dynamic_memory_all.Prelude.Tests.{◌==◌, if◌then◌else◌, Bool-cases, ==→eq, ltb}
use linux_dynamic_memory_all.Prelude.Lists.{has, length}
use linux_dynamic_memory_all.Memory.{
  Ptr, null, header_size, num_size_classes, mmap_threshold, size_max, size_mod, State, Os, ok,
  Returns, Returns-inv, pure, ◌>>◌,
}
use linux_dynamic_memory_all.Kernel.{IsOs}
use linux_dynamic_memory_all.FreeList.Inv.{IsFreeLists-frame}
use linux_dynamic_memory_all.Alloc.{enomem, total_size_of}
use linux_dynamic_memory_all.Alloc.Malloc.{my_malloc}
use linux_dynamic_memory_all.Alloc.Free.{my_free}
use linux_dynamic_memory_all.Alloc.Realloc.{my_calloc, memset, memcpy, relocate, copied, lesser}
use linux_dynamic_memory_all.Alloc.Inv.{IsHeap}
use linux_dynamic_memory_all.Alloc.Coalesce.{SameInUse}
use linux_dynamic_memory_all.Alloc.Loose.{block_ne_null}
use linux_dynamic_memory_all.Alloc.MallocLaws.{Malloced, no_memory, gave, my_malloc-Malloced}
use linux_dynamic_memory_all.Alloc.FreeLaws.{Freed, my_free-Freed_at}

module _ {K : Type 0} {loose top : Ptr} {s : State K} {lists : ℕ → List Ptr} {bs : List Ptr}
    (f : Ptr → ℕ) (h : IsHeap loose top s lists bs) where
  -- What the payloads hold does not matter to the heap.
  pub bytes-IsHeap : IsHeap loose top (record s { bytes = f }) lists bs
  bytes-IsHeap = record {
    start_ne_null = h.start_ne_null;
    initial_ne_null = h.initial_ne_null;
    top_aligned = h.top_aligned;
    tiles = h.tiles;
    blocks = λ x m. let b = h.blocks x m in ground arith;
    fits = h.fits;
    free_lists =
        IsFreeLists-frame top top s (record s { bytes = f }) lists (omega arith) h.free_lists.top_le
          (λ i. refl) (λ i z lt m. (refl, refl)) h.free_lists;
    listed = h.listed;
    free_listed = h.free_listed;
    loose_out = h.loose_out;
  }

-- The overflow test of `my_calloc`.
overflow_lem :
    (nmemb size : ℕ) → 0 < nmemb → size_max < nmemb * size → ltb (size_max / nmemb) size ≡ true
overflow_lem nmemb size pos lt =
    let (to, from) = le-div_iff_mul-le {k = nmemb} {x = size} {y = size_max} pos in
    elim (Bool-cases (ltb (size_max / nmemb) size)) [
      | inl e ↦ e
      | inr e ↦ absurd (let k : size * nmemb ≤ size_max = to (ground arith) in omega arith)
    ]

no_overflow_lem :
    (nmemb size : ℕ) → 0 < nmemb → nmemb * size ≤ size_max → ltb (size_max / nmemb) size ≡ false
no_overflow_lem nmemb size pos le =
    let (to, from) = le-div_iff_mul-le {k = nmemb} {x = size} {y = size_max} pos in
    let k : size ≤ size_max / nmemb = from (omega arith) in ground arith

module _ {K : Type 0} (break : K → Ptr) where
  -- What `my_calloc` of `n` bytes in all leads to: what `my_malloc` of `n` bytes does, and the
  -- bytes of the new payload are 0, the others as they were.
  pub record Calloced (n : ℕ) (s : State K) (bs : List Ptr) (p : Ptr) (s' : State K) : Type 0 where
    pub before : State K
    pub malloced : Malloced break n s bs p before
    pub after : s' ≡ (if p == null then before else record before { bytes = s'.bytes })
    pub zeros : p ≢ null → (i : ℕ) → i < n → s'.bytes (p + i) ≡ 0
    pub others : (a : Ptr) → (p ≡ null) ⊎ ((a < p) ⊎ (p + n ≤ a)) → s'.bytes a ≡ s.bytes a

  Malloced-bytes :
      (n p : ℕ) (s s' : State K) (bs : List Ptr) → Malloced break n s bs p s' → s'.bytes ≡ s.bytes
  Malloced-bytes n p s s' bs (no_memory _ _ _ _ same _) = same.bytes
  Malloced-bytes n p s s' bs (gave _ _ _ _ _ _ _ _ _ same _) = same.bytes

  -- The end of `my_calloc`.
  zeroed :
      (n p : ℕ) (s s1 : State K) (bs : List Ptr)
      → Malloced break n s bs p s1
      → Returns (Calloced n s bs) ((if p == null then pure null else (do memset p 0 n; pure p)) s1)
  zeroed n p s s1 bs r =
      let b = Malloced-bytes n p s s1 bs r in
      elim (Bool-cases (p == null)) [
        | inl e ↦
            let q = ==→eq p null e in
            rw e (record {
              before = s1;
              malloced = subst (λ (k : Ptr). Malloced break n s bs k s1) q r;
              after = refl;
              zeros = λ ne. absurd (ne refl);
              others = λ a out. ground (arith, b);
            })
        | inr e ↦ rw e (record {
          before = s1;
          malloced = r;
          after = rw e refl;
          zeros = λ ne i lt. ground arith;
          others = λ a out. let ne : p ≢ null = ground arith in ground (arith, b);
        })
      ]

-- If the product of the arguments is beyond SIZE_MAX, my_calloc returns NULL with errno at ENOMEM,
-- and nothing else changes.
pub my_calloc-overflow :
    {K : Type 0} (os : Os K) (s : State K) (fuel nmemb size : ℕ)
    → size_max < nmemb * size
    → my_calloc os fuel nmemb size s ≡ ok null (record s { errno = enomem })
unfolding my_calloc
my_calloc-overflow os s fuel nmemb size lt =
    let z1 : nmemb ≢ 0 =
      λ e. absurd (let k : nmemb * size ≡ 0 * size = ap (λ (m : ℕ). m * size) e in omega arith) in
    let z2 : size ≢ 0 =
      λ e. absurd (let k : nmemb * size ≡ nmemb * 0 = ap (λ (m : ℕ). nmemb * m) e in omega arith) in
    let e1 : (nmemb == 0) ≡ false = ground arith in
    let e2 : (size == 0) ≡ false = ground arith in
    rw (e1, e2, overflow_lem nmemb size (omega arith) lt) refl

module _ {K : Type 0} {os : Os K} {break : K → Ptr} (o : IsOs os break) {s : State K}
    {lists : ℕ → List Ptr} {bs : List Ptr} (h : IsHeap null (break s.kernel) s lists bs) where
  -- For a heap in order, fuel beyond the length of every free list, and a product of the arguments
  -- above 0 whose block is below MMAP_THRESHOLD, my_calloc returns. It does what my_malloc of the
  -- product does; if it returns a payload, that many bytes of it are 0, and all other bytes are as
  -- they were.
  pub my_calloc-Calloced :
      (fuel nmemb size : ℕ)
      → ((i : ℕ) → i < num_size_classes → length (lists i) < fuel)
      → 0 < nmemb * size
      → total_size_of (nmemb * size) < mmap_threshold
      → Returns (Calloced break (nmemb * size) s bs) (my_calloc os fuel nmemb size s)
  unfolding my_calloc
  my_calloc-Calloced fuel nmemb size enough pos lt =
      let n = nmemb * size in
      let z1 : nmemb ≢ 0 =
        λ e. absurd (let k : nmemb * size ≡ 0 * size = ap (λ (m : ℕ). m * size) e in omega arith) in
      let z2 : size ≢ 0 = λ e.
        absurd (let k : nmemb * size ≡ nmemb * 0 = ap (λ (m : ℕ). nmemb * m) e in omega arith) in
      let e1 : (nmemb == 0) ≡ false = ground arith in
      let e2 : (size == 0) ≡ false = ground arith in
      let e3 : nmemb * size % size_mod ≡ nmemb * size = omega arith in
      let (p, s1, q, r) =
        Returns-inv (Malloced break (nmemb * size) s bs) (my_malloc os fuel (nmemb * size) s)
          (my_malloc-Malloced fuel (nmemb * size) o h enough pos lt) in
      rw (e1, e2, no_overflow_lem nmemb size (omega arith) (omega arith), e3, q)
        (zeroed break (nmemb * size) p s s1 bs r)

module _ {K : Type 0} (break : K → Ptr) where
  -- What a relocation of the block `x` to a payload of `size` bytes leads to. Either no memory is
  -- left, and nothing has changed but `errno`. Or the pointer is the payload of a block `b` in use
  -- with room for the request, which was no block in use before, with the bytes of the old payload
  -- up to the lesser of the two requests; the blocks in use other than `x` are as they were.
  pub data Relocated (x size : ℕ) (s : State K) (bs : List Ptr) (p : Ptr) (s' : State K)
      : Type 0 where
    not_moved :
        (lists : ℕ → List Ptr)
        → p ≡ null
        → s'.errno ≡ enomem
        → IsHeap null (break s'.kernel) s' lists bs
        → SameInUse null s s' bs bs
        → s'.stats ≡ s.stats
        → Relocated x size s bs p s'
    moved :
        (b : Ptr) (lists' : ℕ → List Ptr) (bs' : List Ptr)
        → p ≡ b + header_size
        → IsHeap null (break s'.kernel) s' lists' bs'
        → has b bs' ≡ true
        → (s'.hdr b).is_free ≡ 0
        → (s'.hdr b).requested_size ≡ size
        → ((z : Ptr) → has z bs ≡ true → (s.hdr z).is_free ≡ 0 → (z == b) ≡ false)
        → s'.bytes ≡ copied s.bytes p (x + header_size) (lesser (s.hdr x).requested_size size)
        → SameInUse x (record s { bytes = s'.bytes }) s' bs bs'
        → Relocated x size s bs p s'

module _ {K : Type 0} {os : Os K} {break : K → Ptr} (o : IsOs os break) {s : State K}
    {lists : ℕ → List Ptr} {bs : List Ptr} (h : IsHeap null (break s.kernel) s lists bs) (x : Ptr)
    (hx : has x bs ≡ true) (used : (s.hdr x).is_free ≡ 0) (size : ℕ) where
  -- The copy and the free, once a block has been obtained.
  moved_out :
      (p : Ptr) (s1 : State K)
      → Malloced break size s bs p s1
      → Returns (Relocated break x size s bs) (
          (if p == null then pure null else (do
            memcpy p (x + header_size) (lesser (s.hdr x).requested_size size)
            my_free os (x + header_size)
            pure p))
            s1)
  moved_out p s1 (no_memory lists1 z e h1 same st) =
      let n : (p == null) ≡ true = ground arith in rw n (not_moved lists1 refl e h1 same st)
  moved_out p s1 (gave b lists1 bs1 at h1 hb ub rb fresh same st) =
      let n : (p == null) ≡ false = ground arith in
      let f = copied s1.bytes p (x + header_size) (lesser (s.hdr x).requested_size size) in
      let nx : (x == null) ≡ false = let k = block_ne_null h x hx in ground arith in
      let (hx1, ux1, _, _) = same.stays x hx nx used in
      let (t, s2, q, r) =
        Returns-inv (λ _. Freed x (break s1.kernel) (record s1 { bytes = f }) bs1)
          (my_free os (x + header_size) (record s1 { bytes = f }))
          (my_free-Freed_at o (bytes-IsHeap f h1) x hx1 ux1) in
      let nb : (b == x) ≡ false = let k = fresh x hx used in ground arith in
      let (hb2, ub2, rb2, _) = r.in_use.stays b hb nb ub in
      rw (n, q)
        (moved b r.lists' r.bs' at
          (subst (λ (k : Ptr). IsHeap null k s2 r.lists' r.bs') (sym (ap break r.kernel)) r.heap)
          hb2 ub2 (rb2 ∙ rb) fresh
          (r.in_use.bytes
            ∙ ap
                (λ (g : Ptr → ℕ).
                  copied g p (x + header_size) (lesser (s.hdr x).requested_size size))
                same.bytes)
          (record {
            stays = λ z m ne u.
                let nz : (z == null) ≡ false = let k = block_ne_null h z m in ground arith in
                let (m1, u1, r1, b1) = same.stays z m nz u in
                let (m2, u2, r2, b2) = r.in_use.stays z m1 ne u1 in (m2, u2, r2 ∙ r1, b2 ∙ b1);
            bytes = refl;
          }))

  -- For a block in use of a heap in order, fuel beyond the length of every free list, and a size
  -- above 0 whose block is below MMAP_THRESHOLD, the relocation of my_realloc returns. Either it
  -- returns NULL with errno at ENOMEM and the old block still in use. Or it returns the payload of
  -- a block in use with room for the request, which was no block in use before and holds the old
  -- bytes up to the lesser of the two requests, and the heap is in order. The other blocks in use
  -- stay in use with their sizes and requests.
  pub relocate-Relocated :
      (fuel : ℕ)
      → ((i : ℕ) → i < num_size_classes → length (lists i) < fuel)
      → 0 < size
      → total_size_of size < mmap_threshold
      → Returns
          (Relocated break x size s bs)
          (relocate os fuel (x + header_size) (s.hdr x).requested_size size s)
  unfolding relocate
  relocate-Relocated fuel enough pos lt =
      let (p, s1, q, r) =
        Returns-inv (Malloced break size s bs) (my_malloc os fuel size s)
          (my_malloc-Malloced fuel size o h enough pos lt) in
      rw q (moved_out p s1 r)
