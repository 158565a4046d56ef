-- ===== src/Alloc/Asked.antt =====
-- The ends of the paths of `my_realloc` of src/allocator/allocator.c that keep the block where it
-- is: the request and the counters change, which does not interfere with the free lists.
use mathlib.Core.Path.{subst}
use linux_dynamic_memory_all.Prelude.{
  ℕ, ◌+◌, ◌-◌, ◌≡◌, ◌<◌, inl, inr, true, false, not, ◌&&◌, List, ◌∷◌, arith, refl, ap, sym,
}
use linux_dynamic_memory_all.Prelude.Tests.{◌==◌, Bool-cases, if◌then◌else◌, ltb}
use linux_dynamic_memory_all.Prelude.Lists.{has, ne_of_has}
use linux_dynamic_memory_all.Memory.{
  Ptr, null, header_size, Footer, Stats, State, update, ok, pure, ◌>>◌, Returns-inv,
  num_size_classes,
}
use linux_dynamic_memory_all.FreeList.{get_size_class_index, free_list_insert}
use linux_dynamic_memory_all.FreeList.Chain.{head_in}
use linux_dynamic_memory_all.FreeList.Insert.{Inserted, free_list_insert-Inserted_at}
use linux_dynamic_memory_all.FreeList.Remove.{Removed}
use linux_dynamic_memory_all.FreeList.SizeClass.{get_size_class_index-lt}
use linux_dynamic_memory_all.Alloc.{add_size}
use linux_dynamic_memory_all.Alloc.Realloc.{count_change, set_requested}
use linux_dynamic_memory_all.Alloc.Inv.{size_in, IsHeap}
use linux_dynamic_memory_all.Alloc.Loose.{insert-IsHeap, in_use_out, block_ne_null}

-- The counters after a change of the request.
abbrev pub changed : ℕ → ℕ → Stats → Stats
changed size old st =
    if ltb size old
    then record st { total_freed = add_size st.total_freed (old - size) }
    else if ltb old size
    then record st { total_allocated = add_size st.total_allocated (size - old) }
    else st

module _ {K : Type 0} (x size : ℕ) (st : Stats) where
  -- The state with the request of `x`, the counters and the footers replaced.
  abbrev pub asked : (Ptr → Footer) → State K → State K
  asked fr s = record s {
    hdr = update s.hdr x (record (s.hdr x) { requested_size = size });
    ftr = fr;
    stats = st;
  }

  module _ (fr : Ptr → Footer) (y i : ℕ) {s s' : State K} (ne : (x == y) ≡ false) where
    pub asked-Removed : Removed y i s s' → Removed y i (asked fr s) (asked fr s')
    asked-Removed r = record {
      links = record {
        next_at = λ a na. let l = r.links.next_at a na in ground arith;
        prev_at = λ a na. let l = r.links.prev_at a na in ground arith;
      };
      self = ground (arith, r.self);
      others = λ a na. ground (arith, r.others a na, r.others x);
      heads = λ j. ground (arith, r.heads j);
      ftr = refl;
      bytes = r.bytes;
      heap_start = r.heap_start;
      initial_break = r.initial_break;
      last_allocator_break = r.last_allocator_break;
      stats = refl;
      errno = r.errno;
      kernel = r.kernel;
    }

    pub asked-Inserted :
        (x == s.heads i && not (s.heads i == null)) ≡ false
        → Inserted y i s s'
        → Inserted y i (asked fr s) (asked fr s')
    asked-Inserted hd r = record {
      self = ground (arith, r.self);
      others = λ a na. ground (arith, r.others a na, r.others x);
      heads = r.heads;
      ftr = refl;
      bytes = r.bytes;
      heap_start = r.heap_start;
      initial_break = r.initial_break;
      last_allocator_break = r.last_allocator_break;
      stats = refl;
      errno = r.errno;
      kernel = r.kernel;
    }

module _ {K : Type 0} where
  -- The end of the two paths.
  pub asked-end :
      (x size old : ℕ) (s : State K)
      → (do count_change size old; set_requested x size; pure (x + header_size)) s
        ≡ ok (x + header_size) (asked x size (changed size old s.stats) s.ftr s)
  unfolding count_change
  asked-end x size old s = elim (Bool-cases (ltb size old)) [
    | inl e ↦ rw e refl
    | inr e ↦ elim (Bool-cases (ltb old size)) [ inl f ↦ rw (e, f) refl | inr f ↦ rw (e, f) refl ]
  ]

  -- The block `y` is listed before the request of `x`, in use, changes; `h` is of the state with
  -- the change made.
  module _ {top : Ptr} {lists : ℕ → List Ptr} {bs : List Ptr} (t : State K) (x size y : ℕ)
      (st : Stats) (h : IsHeap y top (asked x size st t.ftr t) lists bs) (hy : has y bs ≡ true)
      (ne : (x == y) ≡ false) (used : (t.hdr x).is_free ≡ 0) where
    abbrev c : ℕ
    c = get_size_class_index (size_in t y)

    c_lt : c < num_size_classes
    c_lt = get_size_class_index-lt (size_in t y)

    x_not_head : (x == t.heads c && not (t.heads c == null)) ≡ false
    x_not_head =
        elim (head_in (asked x size st t.ftr t).hdr null (t.heads c) (lists c)
          (h.free_lists.chains c c_lt)) [
            | inl e ↦ ground arith
            | inr m ↦
                let k =
                  ne_of_has (t.heads c) x (lists c) m (in_use_out h x (ground arith) c c_lt) in
                ground arith
          ]

    y_not_head : (t.heads c == y) ≡ false
    y_not_head =
        let z = block_ne_null h y hy in
        elim (head_in (asked x size st t.ftr t).hdr null (t.heads c) (lists c)
          (h.free_lists.chains c c_lt)) [
            | inl e ↦ ground arith
            | inr m ↦ ne_of_has (t.heads c) y (lists c) m (h.loose_out c c_lt)
          ]

    pub list_rest :
        (t2 : State K) × (free_list_insert y t ≡ ok tt t2)
        × Inserted y c t t2
        × IsHeap null top (asked x size st t2.ftr t2) (update lists c (y ∷ lists c)) bs
    list_rest =
        let (u, t2, q, r) =
          Returns-inv (λ _. Inserted y c t) (free_list_insert y t)
            (free_list_insert-Inserted_at y c t refl (block_ne_null h y hy) y_not_head) in
        let r2 : Inserted y c (asked x size st t.ftr t) (asked x size st t2.ftr t2) =
          subst (λ f. Inserted y c (asked x size st t.ftr t) (asked x size st f t2)) (sym r.ftr)
            (asked-Inserted x size st t.ftr y c ne x_not_head r) in
        let f : ((asked x size st t.ftr t).hdr y).block_size ≡ size_in t y = ground arith in
        let g : get_size_class_index ((asked x size st t.ftr t).hdr y).block_size ≡ c =
          ap get_size_class_index f in
        let r3 =
          subst (λ (i : ℕ). Inserted y i (asked x size st t.ftr t) (asked x size st t2.ftr t2))
            (sym g) r2 in
        (
          t2,
          q,
          r,
          subst
              (λ (i : ℕ).
                IsHeap null top (asked x size st t2.ftr t2) (update lists i (y ∷ lists i)) bs)
              g (insert-IsHeap h hy r3),
        )
