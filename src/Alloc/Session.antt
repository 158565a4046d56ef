-- ===== src/Alloc/Session.antt =====
-- A client's calls of `my_malloc`, `my_realloc` and `my_free` of src/allocator/allocator.c, one after another.
use mathlib.Core.Path.{subst}
use linux_dynamic_memory_all.Prelude.{
  ℕ, ◌+◌, ◌-◌, ◌%◌, ◌≡◌, ◌≤◌, ◌<◌, ◌⊎◌, inl, inr, true, false, Bool, List, arith, ap, sym,
}
use linux_dynamic_memory_all.Prelude.Tests.{◌==◌, if◌then◌else◌, Bool-cases, ==→eq}
use linux_dynamic_memory_all.Prelude.Lists.{has, length}
use linux_dynamic_memory_all.Memory.{
  Ptr, null, alignment, header_size, footer_size, num_size_classes, mmap_threshold, State, Os,
  update, ok, Returns, Returns-inv,
}
use linux_dynamic_memory_all.Kernel.{IsOs}
use linux_dynamic_memory_all.Alloc.{total_size_of}
use linux_dynamic_memory_all.Alloc.Malloc.{my_malloc}
use linux_dynamic_memory_all.Alloc.Free.{my_free}
use linux_dynamic_memory_all.Alloc.Layout.{inside, apart}
use linux_dynamic_memory_all.Alloc.Inv.{size_in, IsHeap}
use linux_dynamic_memory_all.Alloc.Coalesce.{SameInUse}
use linux_dynamic_memory_all.Alloc.Loose.{block_ne_null}
use linux_dynamic_memory_all.Alloc.MallocLaws.{Malloced, no_memory, gave, my_malloc-Malloced}
use linux_dynamic_memory_all.Alloc.FreeLaws.{Freed, my_free-Freed_at}
use linux_dynamic_memory_all.Alloc.Realloc.{my_realloc}
use linux_dynamic_memory_all.Alloc.Relocate.{not_moved, moved}
use linux_dynamic_memory_all.Alloc.ReallocLaws.{
  Realloced, in_place, elsewhere, my_realloc-Realloced,
}

module _ {K : Type 0} (os : Os K) (break : K → Ptr) where
  -- The fuel is beyond the length of every free list of the state.
  abbrev pub IsEnough : ℕ → State K → Type 0
  IsEnough fuel s =
      (lists : ℕ → List Ptr) (bs : List Ptr)
      → IsHeap null (break s.kernel) s lists bs
      → (i : ℕ) → i < num_size_classes
      → length (lists i) < fuel

  -- The states that a client's calls lead to from a heap in order, with the blocks in use that
  -- the client holds: it frees only what it holds, once.
  pub data Reach : (Ptr → Bool) → State K → Type 0 where
    start :
        {live : Ptr → Bool} {s : State K} (lists : ℕ → List Ptr) (bs : List Ptr)
        → IsHeap null (break s.kernel) s lists bs
        → ((z : Ptr) → live z ≡ true → (has z bs ≡ true) × ((s.hdr z).is_free ≡ 0))
        → Reach live s
    allocate :
        {live : Ptr → Bool} {s s' : State K} (fuel size p : ℕ)
        → Reach live s
        → 0 < size
        → total_size_of size < mmap_threshold
        → IsEnough fuel s
        → my_malloc os fuel size s ≡ ok p s'
        → Reach (if p == null then live else update live (p - header_size) true) s'
    release :
        {live : Ptr → Bool} {s s' : State K} (x : Ptr)
        → Reach live s
        → live x ≡ true
        → my_free os (x + header_size) s ≡ ok tt s'
        → Reach (update live x false) s'
    reallocate :
        {live : Ptr → Bool} {s s' : State K} (x : Ptr) (fuel size p : ℕ)
        → Reach live s
        → live x ≡ true
        → 0 < size
        → total_size_of size < mmap_threshold
        → IsEnough fuel s
        → my_realloc os fuel (x + header_size) size s ≡ ok p s'
        → Reach (if p == null then live else update (update live x false) (p - header_size) true) s'

module _ {K : Type 0} {os : Os K} {break : K → Ptr} (o : IsOs os break) where
  -- The heap is in order, and what the client holds is in use.
  record IsHeld (live : Ptr → Bool) (s : State K) : Type 0 where
    lists : ℕ → List Ptr
    bs : List Ptr
    heap : IsHeap null (break s.kernel) s lists bs
    held : (z : Ptr) → live z ≡ true → (has z bs ≡ true) × ((s.hdr z).is_free ≡ 0)

  -- Nothing has moved.
  unmoved :
      (live : Ptr → Bool) (s s' : State K) (lists : ℕ → List Ptr) (v : IsHeld live s)
      → IsHeap null (break s'.kernel) s' lists v.bs
      → SameInUse null s s' v.bs v.bs
      → IsHeld live s'
  unmoved live s s' lists v h same = record {
    lists = lists;
    bs = v.bs;
    heap = h;
    held = λ y l.
        let (m, u) = v.held y l in
        let ny : (y == null) ≡ false = let k = block_ne_null v.heap y m in ground arith in
        let (m', u', _, _) = same.stays y m ny u in (m', u');
  }

  after_malloc :
      (live : Ptr → Bool) (s s' : State K) (size p : ℕ) (v : IsHeld live s)
      → Malloced break size s v.bs p s'
      → IsHeld (if p == null then live else update live (p - header_size) true) s'
  after_malloc live s s' size p v (no_memory lists z e h same st) =
      let n : (p == null) ≡ true = ground arith in rw n (unmoved live s s' lists v h same)
  after_malloc live s s' size p v (gave b lists bs at h hb ub rb fresh same st) =
      let n : (p == null) ≡ false = ground arith in
      let e : p - header_size ≡ b = omega arith in
      rw (n, e)
        (record {
          lists = lists;
          bs = bs;
          heap = h;
          held = λ y l. elim (Bool-cases (y == b)) [
            | inl f ↦ rw (==→eq y b f) (hb, ub)
            | inr f ↦
                let (m, u) = v.held y (rw f at l) in
                let ny : (y == null) ≡ false = let k = block_ne_null v.heap y m in ground arith in
                let (m', u', _, _) = same.stays y m ny u in (m', u')
          ];
        })

  after_realloc :
      (live : Ptr → Bool) (s s' : State K) (x size p : ℕ) (v : IsHeld live s)
      → live x ≡ true
      → Realloced break x size s v.bs p s'
      → IsHeld (if p == null then live else update (update live x false) (p - header_size) true) s'
  after_realloc live s s' x size p v lx (in_place r) =
      let n : (p == null) ≡ false = let k = r.payload in ground arith in
      let e : p - header_size ≡ x = let k = r.payload in omega arith in
      rw (n, e)
        (record {
          lists = r.lists';
          bs = r.bs';
          heap =
              subst (λ (k : Ptr). IsHeap null k s' r.lists' r.bs') (sym (ap break r.kernel)) r.heap;
          held = λ y l. elim (Bool-cases (y == x)) [
            | inl f ↦ rw (==→eq y x f) (r.mem, r.used)
            | inr f ↦
                let (m, u) = v.held y (rw f at l) in
                let (m', u', _, _) = r.in_use.stays y m f u in (m', u')
          ];
        })
  after_realloc live s s' x size p v lx (elsewhere (not_moved lists z e h same st)) =
      let n : (p == null) ≡ true = ground arith in rw n (unmoved live s s' lists v h same)
  after_realloc live s s' x size p v lx (elsewhere (moved b lists bs at h hb ub rb fresh by same)) =
      let n : (p == null) ≡ false = ground arith in
      let e : p - header_size ≡ b = omega arith in
      rw (n, e)
        (record {
          lists = lists;
          bs = bs;
          heap = h;
          held = λ y l. elim (Bool-cases (y == b)) [
            | inl f ↦ rw (==→eq y b f) (hb, ub)
            | inr f ↦ elim (Bool-cases (y == x)) [
              | inl g ↦ absurd (ground arith)
              | inr g ↦
                  let (m, u) = v.held y (rw g at rw f at l) in
                  let (m', u', _, _) = same.stays y m g u in (m', u')
            ]
          ];
        })

  Reach-IsHeld : (live : Ptr → Bool) (s : State K) → Reach os break live s → IsHeld live s
  Reach-IsHeld live s (start lists bs h held) = record {
    lists = lists;
    bs = bs;
    heap = h;
    held = held;
  }
  Reach-IsHeld live' s' (allocate {live} {s} fuel size p r pos lt enough run) =
      let v = Reach-IsHeld live s r in
      let q = my_malloc-Malloced fuel size o v.heap (enough v.lists v.bs v.heap) pos lt in
      after_malloc live s s' size p v (subst (Returns (Malloced break size s v.bs)) run q)
  Reach-IsHeld live' s' (release {live} {s} x r l run) =
      let v = Reach-IsHeld live s r in
      let (m, u) = v.held x l in
      let f =
        subst (Returns (λ _. Freed x (break s.kernel) s v.bs)) run
          (my_free-Freed_at o v.heap x m u) in
      record {
        lists = f.lists';
        bs = f.bs';
        heap =
            subst (λ (k : Ptr). IsHeap null k s' f.lists' f.bs') (sym (ap break f.kernel)) f.heap;
        held = λ z k.
            let ne : (z == x) ≡ false = ground arith in
            let (m1, u1) = v.held z (rw ne at k) in
            let (m2, u2, _, _) = f.in_use.stays z m1 ne u1 in (m2, u2);
      }
  Reach-IsHeld live' s' (reallocate {live} {s} x fuel size p r lx pos lt enough run) =
      let v = Reach-IsHeld live s r in
      let (m, u) = v.held x lx in
      let q = my_realloc-Realloced o v.heap x m u size fuel (enough v.lists v.bs v.heap) pos lt in
      after_realloc live s s' x size p v lx (subst (Returns (Realloced break x size s v.bs)) run q)

  -- In a state that calls of my_malloc and my_realloc below MMAP_THRESHOLD and of my_free lead to
  -- from a heap in order, where the client frees and resizes only blocks that it holds, with fuel
  -- beyond the length of every free list, my_malloc of a size above 0 whose block is below
  -- MMAP_THRESHOLD returns, without an abort, in a state that is such again, with the new block
  -- held if the pointer is not NULL.
  pub Reach-malloc :
      (live : Ptr → Bool) (s : State K) (fuel size : ℕ)
      → Reach os break live s
      → 0 < size
      → total_size_of size < mmap_threshold
      → IsEnough os break fuel s
      → Returns
          (λ p s'.
            Reach os break (if p == null then live else update live (p - header_size) true) s')
          (my_malloc os fuel size s)
  Reach-malloc live s fuel size r pos lt enough =
      let v = Reach-IsHeld live s r in
      let (p, s', q, m) =
        Returns-inv (Malloced break size s v.bs) (my_malloc os fuel size s)
          (my_malloc-Malloced fuel size o v.heap (enough v.lists v.bs v.heap) pos lt) in
      rw q (allocate fuel size p r pos lt enough q)

  -- In a state that calls of my_malloc and my_realloc below MMAP_THRESHOLD and of my_free lead to
  -- from a heap in order, where the client frees and resizes only blocks that it holds, the
  -- payload of a block that the client holds is a multiple of 16 and lies with its footer below
  -- the break, and my_free of it returns, without an abort, in a state that is such again with the
  -- block no longer held.
  pub Reach-free :
      (live : Ptr → Bool) (s : State K) (x : Ptr)
      → Reach os break live s
      → live x ≡ true
      → ((x + header_size) % alignment ≡ 0)
        × (x + header_size + (s.hdr x).requested_size + footer_size ≤ break s.kernel)
        × Returns (λ _ s'. Reach os break (update live x false) s') (my_free os (x + header_size) s)
  Reach-free live s x r lx =
      let v = Reach-IsHeld live s r in
      let (mx, ux) = v.held x lx in
      let nx : (x == null) ≡ false = let k = block_ne_null v.heap x mx in ground arith in
      let fx = v.heap.fits x mx nx ux in
      let al = (v.heap.blocks x mx).aligned in
      let i = inside (size_in s) (break s.kernel) s.heap_start x v.bs v.heap.tiles mx in
      let (t, s', q, f) =
        Returns-inv (λ _. Freed x (break s.kernel) s v.bs) (my_free os (x + header_size) s)
          (my_free-Freed_at o v.heap x mx ux) in
      (omega arith, omega arith, rw q (release x r lx q))

  -- In a state that calls of my_malloc and my_realloc below MMAP_THRESHOLD and of my_free lead to
  -- from a heap in order, where the client frees and resizes only blocks that it holds, two
  -- different blocks that it holds do not overlap: one ends, with its payload for the request and
  -- its footer, before the other begins.
  pub Reach-apart :
      (live : Ptr → Bool) (s : State K) (x y : Ptr)
      → Reach os break live s
      → live x ≡ true
      → live y ≡ true
      → (x == y) ≡ false
      → (x + header_size + (s.hdr x).requested_size + footer_size ≤ y)
        ⊎ (y + header_size + (s.hdr y).requested_size + footer_size ≤ x)
  Reach-apart live s x y r lx ly ne =
      let v = Reach-IsHeld live s r in
      let (mx, ux) = v.held x lx in
      let (my, uy) = v.held y ly in
      let nx : (x == null) ≡ false = let k = block_ne_null v.heap x mx in ground arith in
      let ny : (y == null) ≡ false = let k = block_ne_null v.heap y my in ground arith in
      let fx = v.heap.fits x mx nx ux in
      let fy = v.heap.fits y my ny uy in
      let a = apart (size_in s) (break s.kernel) s.heap_start x y v.bs v.heap.tiles mx my in
      ground arith
