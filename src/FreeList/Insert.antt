-- ===== src/FreeList/Insert.antt =====
-- `free_list_insert` puts exactly one block at the front of its list.
use mathlib.Core.Path.{subst}
use linux_dynamic_memory_all.Prelude.{
  ℕ, ◌+◌, ◌≡◌, ◌≤◌, ◌<◌, ◌≢◌, refl, true, false, not, ◌&&◌, List, ◌∷◌, ap, sym, arith, inl, inr,
}
use linux_dynamic_memory_all.Prelude.Tests.{◌==◌, if◌then◌else◌, Bool-cases, ==→eq}
use linux_dynamic_memory_all.Prelude.Lists.{All, All-map, has}
use linux_dynamic_memory_all.Memory.{
  Ptr, null, alloc_magic_header, num_size_classes, overhead, update, State, Returns, Returns-inv,
}
use linux_dynamic_memory_all.FreeList.{get_size_class_index, free_list_insert, footer_matches}
use linux_dynamic_memory_all.FreeList.Chain.{head_in, head_ne, Chain-frame, Chain-cons}
use linux_dynamic_memory_all.FreeList.Inv.{IsFreeBlock, IsFreeLists, disjoint}
use linux_dynamic_memory_all.FreeList.SizeClass.{get_size_class_index-lt}

module _ {K : Type 0} where
  -- What `free_list_insert` does to the state: `x` heads the list of class `i`, marked as free; the
  -- old head links back to it; nothing else changes.
  pub record Inserted (x : Ptr) (i : ℕ) (s s' : State K) : Type 0 where
    pub self : s'.hdr x ≡ record (s.hdr x) { next = s.heads i; prev = null; is_free = 1 }
    pub others :
        (a : Ptr)
        → (a == x) ≡ false
        → s'.hdr a ≡ record (s.hdr a) {
          prev = if a == s.heads i && not (s.heads i == null) then x else (s.hdr a).prev;
        }
    pub heads : (j : ℕ) → s'.heads j ≡ (if j == i then x else s.heads j)
    pub ftr : s'.ftr ≡ s.ftr
    pub bytes : s'.bytes ≡ s.bytes
    pub heap_start : s'.heap_start ≡ s.heap_start
    pub initial_break : s'.initial_break ≡ s.initial_break
    pub last_allocator_break : s'.last_allocator_break ≡ s.last_allocator_break
    pub stats : s'.stats ≡ s.stats
    pub errno : s'.errno ≡ s.errno
    pub kernel : s'.kernel ≡ s.kernel

  pub free_list_insert-Inserted_at :
      (x : Ptr) (i : ℕ) (s : State K)
      → get_size_class_index (s.hdr x).block_size ≡ i
      → x ≢ null
      → (s.heads i == x) ≡ false
      → Returns (λ _. Inserted x i s) (free_list_insert x s)
  unfolding free_list_insert
  free_list_insert-Inserted_at x i s e ne ns = ground arith

  -- `x` is a block that no list holds yet, with its canaries in place.
  pub record IsLoose (top : Ptr) (s : State K) (lists : ℕ → List Ptr) (x : Ptr) : Type 0 where
    pub ne_null : x ≢ null
    pub magic : (s.hdr x).magic_header ≡ alloc_magic_header
    pub least : overhead ≤ (s.hdr x).block_size
    pub within : x + (s.hdr x).block_size ≤ top
    pub footer : footer_matches s x (s.hdr x).block_size ≡ true
    pub out : (j : ℕ) → j < num_size_classes → has x (lists j) ≡ false

  module _ {top : Ptr} {s : State K} {lists : ℕ → List Ptr} (v : IsFreeLists top s lists) (x : Ptr)
      (l : IsLoose top s lists x) where
    abbrev i : ℕ
    i = get_size_class_index (s.hdr x).block_size

    i_lt : i < num_size_classes
    i_lt = get_size_class_index-lt (s.hdr x).block_size

    pub free_list_insert-Inserted :
        Returns
          (λ _. Inserted x (get_size_class_index (s.hdr x).block_size) s)
          (free_list_insert x s)
    free_list_insert-Inserted =
        free_list_insert-Inserted_at x i s refl l.ne_null
          (head_ne s.hdr x null (s.heads i) (lists i) (v.chains i i_lt) l.ne_null (l.out i i_lt))

    module _ {s' : State K} (r : Inserted x i s s') where
      -- Another free block stays a free block of its class.
      Inserted-IsFreeBlock :
          (j : ℕ) (a : Ptr) → (a == x) ≡ false → IsFreeBlock top s j a → IsFreeBlock top s' j a
      Inserted-IsFreeBlock j a ne b = ground (arith, r.others a, r.ftr)

      -- The new head is a free block of its class.
      Inserted-IsFreeBlock_self : IsFreeBlock top s' i x
      Inserted-IsFreeBlock_self =
          ground (arith, r.self, r.ftr, l.magic, l.least, l.within, l.footer)

      member_ne :
          (j : ℕ) → j < num_size_classes → (a : Ptr) → has a (lists j) ≡ true → (a == x) ≡ false
      member_ne j j_lt a h = elim (Bool-cases (a == x)) [
        | inl e ↦
            let q : a ≡ x = ==→eq a x e in cc (l.out j j_lt, ap (λ (b : Ptr). has b (lists j)) q)
        | inr e ↦ e
      ]

      -- The list of the block's class gains it in front, and the others stay.
      pub Inserted-IsFreeLists : IsFreeLists top s' (update lists i (x ∷ lists i))
      Inserted-IsFreeLists = record {
        top_le = v.top_le;
        chains = λ j j_lt. elim (Bool-cases (j == i)) [
          | inl e ↦
              let h : s'.heads j ≡ x = ground (arith, r.heads j) in
              rw (e, h)
                (Chain-cons s.hdr s'.hdr x (s.heads i) (lists i) l.ne_null (l.out i i_lt)
                  (ground (arith, r.self)) (ground (arith, r.self))
                  (λ a ne. ground (arith, r.others a ne)) (λ a ne. ground (arith, r.others a ne))
                  (v.chains i i_lt))
          | inr ne ↦
              let h : s'.heads j ≡ s.heads j = ground (arith, r.heads j) in
              rw (ne, h)
                (Chain-frame s.hdr s'.hdr null (s.heads j) (lists j)
                  (λ a m.
                    let o = r.others a (member_ne j j_lt a m) in
                    let d = λ (k : has (s.heads i) (lists i) ≡ true).
                      disjoint v j i a (s.heads i) j_lt i_lt m k ne in
                    let hd = head_in s.hdr null (s.heads i) (lists i) (v.chains i i_lt) in
                    (ground (arith, o), ground (arith, o, d)))
                  (v.chains j j_lt))
        ];
        blocks = λ j j_lt. elim (Bool-cases (j == i)) [
          | inl e ↦
              let q : j ≡ i = ==→eq j i e in
              let t : All (IsFreeBlock top s' i) (x ∷ lists i) =
                (Inserted-IsFreeBlock_self, keep i i_lt) in
              rw e (subst (λ (k : ℕ). All (IsFreeBlock top s' k) (x ∷ lists i)) (sym q) t)
          | inr ne ↦ rw ne (keep j j_lt)
        ];
      }
        where
          keep : (j : ℕ) → j < num_size_classes → All (IsFreeBlock top s' j) (lists j)
          keep j j_lt =
              All-map (IsFreeBlock top s j) (IsFreeBlock top s' j) (lists j)
                (λ a m b. Inserted-IsFreeBlock j a (member_ne j j_lt a m) b) (v.blocks j j_lt)

    -- For free lists in order and a block in none of them with its canaries in place,
    -- free_list_insert returns; the block heads the list of its class, marked as free, only links
    -- of other blocks change, and the lists are in order again.
    pub free_list_insert-IsFreeLists :
        Returns
          (λ _ s'.
            Inserted x (get_size_class_index (s.hdr x).block_size) s s'
            × IsFreeLists top s' (
                update lists
                  (get_size_class_index (s.hdr x).block_size)
                  (x ∷ lists (get_size_class_index (s.hdr x).block_size))))
          (free_list_insert x s)
    free_list_insert-IsFreeLists =
        let (t, s', q, r) =
          Returns-inv (λ _. Inserted x i s) (free_list_insert x s) free_list_insert-Inserted in
        rw q (r, Inserted-IsFreeLists r)
