-- ===== src/Alloc/Loose.antt =====
-- Blocks on their way between the free lists and the caller.
use mathlib.Core.Path.{subst}
use linux_dynamic_memory_all.Prelude.{
  ℕ, ◌+◌, ◌≡◌, ◌≤◌, ◌<◌, ◌≢◌, ◌⊎◌, inl, inr, true, false, List, ◌∷◌, arith, refl, ap, sym,
}
use linux_dynamic_memory_all.Prelude.Tests.{◌==◌, Bool-cases, ==→eq}
use linux_dynamic_memory_all.Prelude.Lists.{has, ne_of_has}
use linux_dynamic_memory_all.Memory.{Ptr, null, overhead, num_size_classes, State, update}
use linux_dynamic_memory_all.FreeList.{get_size_class_index, footer_at}
use linux_dynamic_memory_all.FreeList.Inv.{IsFreeLists-frame, block_of, null_out}
use linux_dynamic_memory_all.FreeList.SizeClass.{get_size_class_index-lt}
use linux_dynamic_memory_all.FreeList.Insert.{IsLoose, Inserted, Inserted-IsFreeLists}
use linux_dynamic_memory_all.Alloc.Layout.{Tiles, Tiles-frame, inside}
use linux_dynamic_memory_all.Alloc.Inv.{size_in, IsHeap}

module _ {K : Type 0} {loose top : Ptr} {s : State K} {lists : ℕ → List Ptr} {bs : List Ptr}
    (h : IsHeap loose top s lists bs) where
  pub block_ne_null : (x : Ptr) → has x bs ≡ true → x ≢ null
  block_ne_null x m =
      let i = inside (size_in s) top s.heap_start x bs h.tiles m in
      let n = h.start_ne_null in ground arith

  -- A block in use is in no list.
  pub in_use_out :
      (x : Ptr) → (s.hdr x).is_free ≡ 0 → (i : ℕ) → i < num_size_classes → has x (lists i) ≡ false
  in_use_out x e i lt = elim (Bool-cases (has x (lists i))) [
    | inl m ↦ let b = (block_of h.free_lists i x lt m).free in absurd (omega arith)
    | inr out ↦ out
  ]

  pub held-IsLoose : (x : Ptr) → loose ≡ x → has x bs ≡ true → IsLoose top s lists x
  held-IsLoose x e m =
      let i = inside (size_in s) top s.heap_start x bs h.tiles m in
      let b = h.blocks x m in
      record {
        ne_null = block_ne_null x m;
        magic = b.magic;
        least = i.2;
        within = i.1;
        footer = b.footer;
        out = λ j lt. rw (← e) (h.loose_out j lt);
      }

  -- A loose block that is in use and has room for what was asked for is no longer exempt.
  pub settle-IsHeap :
      (s.hdr loose).is_free ≡ 0
      → (s.hdr loose).requested_size + overhead ≤ (s.hdr loose).block_size
      → IsHeap null top s lists bs
  settle-IsHeap used room = record {
    start_ne_null = h.start_ne_null;
    initial_ne_null = h.initial_ne_null;
    top_aligned = h.top_aligned;
    tiles = h.tiles;
    blocks = h.blocks;
    fits = λ x m _ fr. elim (Bool-cases (x == loose)) [
      | inl e ↦ rw (==→eq x loose e) room
      | inr e ↦ h.fits x m e fr
    ];
    free_lists = h.free_lists;
    listed = h.listed;
    free_listed = λ x m _ fr. elim (Bool-cases (x == loose)) [
      | inl e ↦ absurd (ground (arith, ap (λ (y : Ptr). (s.hdr y).is_free) (==→eq x loose e)))
      | inr e ↦ h.free_listed x m e fr
    ];
    loose_out = λ i lt. null_out h.free_lists i lt;
  }

  -- A block that no list holds becomes the loose one, whatever its request and its mark are now.
  module _ (s' : State K) (x : Ptr) (m : has x bs ≡ true)
      (was : (loose ≡ x) ⊎ ((loose ≡ null) × ((s.hdr x).is_free ≡ 0)))
      (others : (z : Ptr) → (z == x) ≡ false → s'.hdr z ≡ s.hdr z)
      (self : s'.hdr x ≡ record (s.hdr x) {
        is_free = (s'.hdr x).is_free;
        requested_size = (s'.hdr x).requested_size;
      })
      (heads : (j : ℕ) → s'.heads j ≡ s.heads j)
      (ftr : (z : Ptr)
        → has z bs ≡ true
        → s'.ftr (footer_at z (size_in s z)) ≡ s.ftr (footer_at z (size_in s z)))
      (start : s'.heap_start ≡ s.heap_start) (initial : s'.initial_break ≡ s.initial_break) where
    not_listed : (j : ℕ) → j < num_size_classes → has x (lists j) ≡ false
    not_listed j lt = elim was [
      | inl e ↦ rw (← e) (h.loose_out j lt)
      | inr (e, u) ↦ in_use_out x u j lt
    ]

    size_same : (z : Ptr) → size_in s' z ≡ size_in s z
    size_same z = elim (Bool-cases (z == x)) [
      | inl e ↦ rw (==→eq z x e) (ground (arith, self))
      | inr e ↦ ground (arith, others z e)
    ]

    not_loose : (z : Ptr) → has z bs ≡ true → (z == x) ≡ false → (z == loose) ≡ false
    not_loose z k ne = elim was [
      | inl e ↦ rw e ne
      | inr (e, u) ↦ let n = block_ne_null z k in ground arith
    ]

    pub touch-IsHeap : IsHeap x top s' lists bs
    touch-IsHeap = record {
      start_ne_null = rw start h.start_ne_null;
      initial_ne_null = rw initial h.initial_ne_null;
      top_aligned = h.top_aligned;
      tiles =
          let t =
            Tiles-frame (size_in s) (size_in s') top s.heap_start bs (λ z k. size_same z) h.tiles in
          subst (λ (k : Ptr). Tiles (size_in s') top k bs) (sym start) t;
      blocks = λ z k.
          let b = h.blocks z k in
          let f = ftr z k in
          elim (Bool-cases (z == x)) [
            | inl e ↦
                let q = ==→eq z x e in
                let same : s'.hdr z ≡ record (s.hdr z) {
                  is_free = (s'.hdr z).is_free;
                  requested_size = (s'.hdr z).requested_size;
                } =
                  rw q self in
                ground arith
            | inr e ↦ ground (arith, others z e)
          ];
      fits = λ z k ne fr. ground (arith, others z ne, h.fits z k (not_loose z k ne));
      free_lists =
          IsFreeLists-frame top top s s' lists (omega arith) h.free_lists.top_le heads
            (λ j z lt k.
              (others z (ne_of_has z x (lists j) k (not_listed j lt)), ftr z (h.listed j z lt k)))
            h.free_lists;
      listed = h.listed;
      free_listed = λ z k ne fr.
          let e = others z ne in
          let l = h.free_listed z k (not_loose z k ne) (ground arith) in
          let c : (s'.hdr z).block_size ≡ (s.hdr z).block_size = ground arith in rw c l;
      loose_out = not_listed;
    }

  -- `free_list_insert` lists the loose block.
  module _ {s' : State K} (m : has loose bs ≡ true)
      (r : Inserted loose (get_size_class_index (s.hdr loose).block_size) s s') where
    abbrev c : ℕ
    c = get_size_class_index (s.hdr loose).block_size

    inserted_size : (z : Ptr) → size_in s' z ≡ size_in s z
    inserted_size z = elim (Bool-cases (z == loose)) [
      | inl e ↦ rw (==→eq z loose e) (ground (arith, r.self))
      | inr e ↦ ground (arith, r.others z e)
    ]

    pub insert-IsHeap : IsHeap null top s' (update lists c (loose ∷ lists c)) bs
    insert-IsHeap = record {
      start_ne_null = rw r.heap_start h.start_ne_null;
      initial_ne_null = rw r.initial_break h.initial_ne_null;
      top_aligned = h.top_aligned;
      tiles =
          let t =
            Tiles-frame (size_in s) (size_in s') top s.heap_start bs (λ z k. inserted_size z)
              h.tiles in
          subst (λ (k : Ptr). Tiles (size_in s') top k bs) (sym r.heap_start) t;
      blocks = λ z k.
          let b = h.blocks z k in
          elim (Bool-cases (z == loose)) [
            | inl e ↦
                let b' = h.blocks loose m in rw (==→eq z loose e) (ground (arith, r.self, r.ftr))
            | inr e ↦ ground (arith, r.others z e, r.ftr)
          ];
      fits = λ z k ne fr. elim (Bool-cases (z == loose)) [
        | inl e ↦
            absurd (ground (arith, r.self, ap (λ (y : Ptr). (s'.hdr y).is_free) (==→eq z loose e)))
        | inr e ↦ ground (arith, r.others z e, h.fits z k e)
      ];
      free_lists = Inserted-IsFreeLists h.free_lists loose (held-IsLoose loose refl m) r;
      listed = λ j z lt k. elim (Bool-cases (j == c)) [
        | inl e ↦
            let k' : has z (loose ∷ lists c) ≡ true = rw e at k in
            elim (Bool-cases (z == loose)) [
              | inl f ↦ rw (==→eq z loose f) m
              | inr f ↦
                  h.listed c z (get_size_class_index-lt (s.hdr loose).block_size) (ground arith)
            ]
        | inr e ↦ h.listed j z lt (rw e at k)
      ];
      free_listed = λ z k ne fr. rw (inserted_size z) (elim (Bool-cases (z == loose)) [
        | inl e ↦
            rw (==→eq z loose e) (let cc' : (c == c) ≡ true = ground arith in rw cc' (ground arith))
        | inr e ↦
            let l = h.free_listed z k e (ground (arith, r.others z e)) in
            let cz = get_size_class_index (s.hdr z).block_size in
            elim (Bool-cases (cz == c)) [
              | inl f ↦
                  let l' : has z (lists c) ≡ true =
                    subst (λ (i : ℕ). has z (lists i) ≡ true) (==→eq cz c f) l in
                  rw f (ground arith)
              | inr f ↦ rw f l
            ]
      ]);
      loose_out = λ i lt.
          null_out (Inserted-IsFreeLists h.free_lists loose (held-IsLoose loose refl m) r) i lt;
    }
