-- ===== src/FreeList/Remove.antt =====
-- `free_list_remove` takes exactly one block out of its list.
use mathlib.Core.Path.{subst}
use linux_dynamic_memory_all.Prelude.{
  ℕ, ◌≡◌, ◌<◌, true, false, ◌&&◌, List, arith, inl, inr, ◌≢◌, ap,
}
use linux_dynamic_memory_all.Prelude.Tests.{◌==◌, if◌then◌else◌, Bool-cases, ==→eq}
use linux_dynamic_memory_all.Prelude.Lists.{
  All-map, All-erase, has, erase, not-has-erase, ne_of_has, has-erase_ne, All-has,
}
use linux_dynamic_memory_all.Memory.{
  Ptr, null, update, State, Os, Returns, Returns-inv, num_size_classes,
}
use linux_dynamic_memory_all.Kernel.{IsOs}
use linux_dynamic_memory_all.FreeList.{free_list_remove, unlink}
use linux_dynamic_memory_all.FreeList.Chain.{
  Chain-frame, Unlinked-Chain, not-has-erase_self, next_in, prev_in, ne_null, Unlinked,
}
use linux_dynamic_memory_all.FreeList.Inv.{IsFreeBlock, IsFreeLists, disjoint}

module _ {K : Type 0} where
  -- What `free_list_remove` does to the state: `x` is unlinked from the list of class `i` and marked
  -- as in use; its neighbours link to each other; nothing else changes.
  pub record Removed (x : Ptr) (i : ℕ) (s s' : State K) : Type 0 where
    pub links : Unlinked s.hdr s'.hdr x
    pub self : s'.hdr x ≡ record (s.hdr x) { next = null; prev = null; is_free = 0 }
    pub others :
        (a : Ptr)
        → (a == x) ≡ false
        → s'.hdr a ≡ record (s.hdr a) { next = (s'.hdr a).next; prev = (s'.hdr a).prev }
    pub heads :
        (j : ℕ)
        → s'.heads j ≡ (if j == i && (s.hdr x).prev == null then (s.hdr x).next else s.heads j)
    pub ftr : s'.ftr ≡ s.ftr
    pub bytes : s'.bytes ≡ s.bytes
    pub heap_start : s'.heap_start ≡ s.heap_start
    pub initial_break : s'.initial_break ≡ s.initial_break
    pub last_allocator_break : s'.last_allocator_break ≡ s.last_allocator_break
    pub stats : s'.stats ≡ s.stats
    pub errno : s'.errno ≡ s.errno
    pub kernel : s'.kernel ≡ s.kernel

  unlink-Removed :
      (x : Ptr) (i : ℕ) (s : State K)
      → (s.hdr x).prev ≢ x
      → (s.hdr x).next ≢ x
      → Returns (λ _. Removed x i s) (unlink x i s)
  unfolding unlink
  unlink-Removed x i s hp hn = ground arith

  module _ {os : Os K} {break : K → Ptr} (o : IsOs os break) {s : State K} {lists : ℕ → List Ptr}
      (v : IsFreeLists (break s.kernel) s lists) (x : Ptr) (i : ℕ) (i_lt : i < num_size_classes)
      (mem : has x (lists i) ≡ true) where
    -- A member of a list passes every check of `free_list_remove`, which unlinks it.
    pub free_list_remove-Removed : Returns (λ _. Removed x i s) (free_list_remove os x s)
    unfolding free_list_remove
    free_list_remove-Removed =
        let c = v.chains i i_lt in
        let b = All-has (IsFreeBlock (break s.kernel) s i) x (lists i) (v.blocks i i_lt) mem in
        let n = next_in s.hdr x null (s.heads i) (lists i) c mem in
        let p = prev_in s.hdr x null (s.heads i) (lists i) c mem in
        let z = ne_null s.hdr x null (s.heads i) (lists i) c mem in
        ground (
          arith,
          o.sbrk_zero s.kernel,
          b.class,
          b.free,
          b.least,
          b.within,
          b.footer,
          unlink-Removed x i s,
        )

    -- A member of the lists without `x` was a member, and is not `x`.
    pub member_left :
        (j z : ℕ)
        → j < num_size_classes
        → has z (update lists i (erase x (lists i)) j) ≡ true
        → (has z (lists j) ≡ true) × ((z == x) ≡ false)
    member_left j z lt m =
        let g = not-has-erase_self s.hdr x null (s.heads i) (lists i) (v.chains i i_lt) in
        elim (Bool-cases (j == i)) [
          | inl e ↦
              let m' : has z (erase x (lists i)) ≡ true = rw e at m in
              let q : lists j ≡ lists i = ap lists (==→eq j i e) in
              (
                rw q (ground (arith, not-has-erase z x (lists i))),
                ne_of_has z x (erase x (lists i)) m' g,
              )
          | inr e ↦
              let m' : has z (lists j) ≡ true = rw e at m in
              (m', disjoint v j i z x lt i_lt m' mem e)
        ]

    -- Another member stays.
    pub member_stays :
        (j z : ℕ)
        → has z (lists j) ≡ true
        → (z == x) ≡ false
        → has z (update lists i (erase x (lists i)) j) ≡ true
    member_stays j z m ne = elim (Bool-cases (j == i)) [
      | inl e ↦
          let m' : has z (lists i) ≡ true =
            subst (λ (k : ℕ). has z (lists k) ≡ true) (==→eq j i e) m in
          rw (e, has-erase_ne z x (lists i) ne) m'
      | inr e ↦ rw e m
    ]

    module _ {s' : State K} (r : Removed x i s s') where
      -- A block that is not `x` stays a free block of its class.
      Removed-IsFreeBlock :
          (j : ℕ) (a : Ptr)
          → (a == x) ≡ false
          → IsFreeBlock (break s.kernel) s j a
          → IsFreeBlock (break s.kernel) s' j a
      Removed-IsFreeBlock j a ne b = ground (arith, r.others a, r.ftr)

      -- A block of another class is not `x`, and its links are untouched.
      Removed-other :
          (j : ℕ)
          → j < num_size_classes
          → (j == i) ≡ false
          → (a : Ptr) → has a (lists j) ≡ true
          → ((a == x) ≡ false)
            × ((s'.hdr a).next ≡ (s.hdr a).next)
            × ((s'.hdr a).prev ≡ (s.hdr a).prev)
      Removed-other j j_lt ne a h =
          let c = v.chains i i_lt in
          let n = next_in s.hdr x null (s.heads i) (lists i) c mem in
          let p = prev_in s.hdr x null (s.heads i) (lists i) c mem in
          let d = λ (b : Ptr) (k : has b (lists i) ≡ true). disjoint v j i a b j_lt i_lt h k ne in
          let not_x : (a == x) ≡ false = d x mem in
          (
            not_x,
            ground (arith, r.links.next_at a not_x, d (s.hdr x).prev),
            ground (arith, r.links.prev_at a not_x, d (s.hdr x).next),
          )

      -- The list of class `i` loses `x`, and the others stay.
      pub Removed-IsFreeLists : IsFreeLists (break s.kernel) s' (update lists i (erase x (lists i)))
      Removed-IsFreeLists = record {
        top_le = v.top_le;
        chains = λ j j_lt. elim (Bool-cases (j == i)) [
          | inl e ↦
              let q : j ≡ i = ==→eq j i e in
              let c = v.chains i i_lt in
              let p = prev_in s.hdr x null (s.heads i) (lists i) c mem in
              let f : s'.heads j ≡ (if s.heads i == x then (s.hdr x).next else s.heads i) =
                ground (arith, r.heads j, p) in
              rw (e, f) (Unlinked-Chain r.links null (s.heads i) (lists i) c mem)
          | inr ne ↦
              let f : s'.heads j ≡ s.heads j = ground (arith, r.heads j) in
              rw (ne, f)
                (Chain-frame s.hdr s'.hdr null (s.heads j) (lists j)
                  (λ a h. let q = Removed-other j j_lt ne a h in (q.1, q.2)) (v.chains j j_lt))
        ];
        blocks = λ j j_lt. elim (Bool-cases (j == i)) [
          | inl e ↦
              let q : j ≡ i = ==→eq j i e in
              let gone = not-has-erase_self s.hdr x null (s.heads i) (lists i) (v.chains i i_lt) in
              rw (e, q)
                (All-map (IsFreeBlock (break s.kernel) s i) (IsFreeBlock (break s.kernel) s' i)
                  (erase x (lists i)) (λ a h b. Removed-IsFreeBlock i a (ground arith) b)
                  (All-erase (IsFreeBlock (break s.kernel) s i) x (lists i) (v.blocks i i_lt)))
          | inr ne ↦ rw ne (
              All-map (IsFreeBlock (break s.kernel) s j) (IsFreeBlock (break s.kernel) s' j)
                (lists j) (λ a h b. Removed-IsFreeBlock j a ((Removed-other j j_lt ne a h).0) b)
                (v.blocks j j_lt))
        ];
      }

    -- For free lists in order and a block in one of them, free_list_remove passes every check and
    -- returns; the block leaves its list and is marked as in use, with no links, only links of
    -- other blocks change, and the lists are in order again.
    pub free_list_remove-IsFreeLists :
        Returns
          (λ _ s'.
            Removed x i s s' × IsFreeLists (break s.kernel) s' (update lists i (erase x (lists i))))
          (free_list_remove os x s)
    free_list_remove-IsFreeLists =
        let (t, s', q, r) =
          Returns-inv (λ _. Removed x i s) (free_list_remove os x s) free_list_remove-Removed in
        rw q (r, Removed-IsFreeLists r)
