-- ===== src/Alloc/Carve.antt =====
-- `my_malloc` of src/allocator/allocator.c cuts a block to size and hands it out.
use mathlib.Core.Path.{subst}
use linux_dynamic_memory_all.Prelude.{
  ℕ, ◌+◌, ◌-◌, ◌%◌, ◌≡◌, ◌≤◌, inl, inr, true, false, not, ◌&&◌, List, ◌∷◌, arith, refl, ap, sym,
}
use linux_dynamic_memory_all.Prelude.Tests.{◌==◌, leb}
use linux_dynamic_memory_all.Prelude.Lists.{has, ne_of_has}
use linux_dynamic_memory_all.Memory.{
  Ptr, null, alloc_magic_header, alloc_magic_footer, alignment, overhead, header_size, State,
  update, ok, Returns,
}
use linux_dynamic_memory_all.FreeList.{get_size_class_index, footer_at}
use linux_dynamic_memory_all.FreeList.Chain.{head_in}
use linux_dynamic_memory_all.FreeList.Insert.{Inserted, free_list_insert-Inserted_at}
use linux_dynamic_memory_all.FreeList.SizeClass.{get_size_class_index-lt}
use linux_dynamic_memory_all.Alloc.{add_size, min_split}
use linux_dynamic_memory_all.Alloc.Malloc.{hand_out, split_block}
use linux_dynamic_memory_all.Alloc.Layout.{insert_after, inside, apart, has-insert_after}
use linux_dynamic_memory_all.Alloc.Inv.{size_in, IsHeap}
use linux_dynamic_memory_all.Alloc.Cut.{IsShort, IsCut, rest_out, listed_block, cut-IsHeap}
use linux_dynamic_memory_all.Alloc.Loose.{touch-IsHeap, settle-IsHeap, insert-IsHeap}

module _ {K : Type 0} where
  -- The state after the block `b` is handed out for `size` bytes.
  abbrev pub handed : Ptr → ℕ → State K → State K
  handed b size s = record s {
    hdr = update s.hdr b (record (s.hdr b) { is_free = 0; requested_size = size });
    ftr =
        update s.ftr (footer_at b (size_in s b))
          (record { magic_footer = alloc_magic_footer; block_size = size_in s b });
    stats = record (s.stats) { total_allocated = add_size s.stats.total_allocated size };
  }

  pub hand_out-handed :
      (b size : ℕ) (s : State K) → hand_out b size s ≡ ok (b + header_size) (handed b size s)
  unfolding hand_out
  hand_out-handed b size s = refl

  -- The state of a split before the rest is listed.
  abbrev pub cut : Ptr → ℕ → State K → State K
  cut b total s = record s {
    hdr =
        update (update s.hdr b (record (s.hdr b) { block_size = total })) (b + total)
          (record (update s.hdr b (record (s.hdr b) { block_size = total }) (b + total)) {
            magic_header = alloc_magic_header;
            block_size = size_in s b - total;
            is_free = 1;
            is_mmap = 0;
            next = null;
            prev = null;
          });
    ftr =
        update s.ftr (footer_at (b + total) (size_in s b - total))
          (record { magic_footer = alloc_magic_footer; block_size = size_in s b - total });
  }

  module _ {top : Ptr} {s : State K} {lists : ℕ → List Ptr} {bs : List Ptr} (b size total : ℕ)
      (h : IsHeap b top s lists bs) (hb : has b bs ≡ true) where
    -- A block that is handed out whole.
    pub whole-IsHeap : size + overhead ≤ size_in s b → IsHeap null top (handed b size s) lists bs
    whole-IsHeap room =
        let fb = (h.blocks b hb).footer in
        let ib = inside (size_in s) top s.heap_start b bs h.tiles hb in
        settle-IsHeap
          (touch-IsHeap h (handed b size s) b hb (inl refl) (λ z ne. ground arith) (ground arith)
            (λ j. refl)
            (λ z k.
              let a = apart (size_in s) top s.heap_start z b bs h.tiles k hb in
              let iz = inside (size_in s) top s.heap_start z bs h.tiles k in
              ground (arith, ap (size_in s)))
            refl refl)
          (ground arith) (ground arith)

    -- A block that is cut in two: `b` is handed out with `total` bytes, the rest is `y`.
    module _ (aligned : total % alignment ≡ 0) (fits : size + overhead ≤ total)
        (large : total + min_split ≤ size_in s b) where
      abbrev y : Ptr
      y = b + total

      abbrev t : State K
      t = handed b size (cut b total s)

      is_short : IsShort b total s t bs
      is_short = record {
        others = λ z nb ny. ground arith;
        ftrs = λ z k nb.
            let a = apart (size_in s) top s.heap_start z b bs h.tiles k hb in
            let iz = inside (size_in s) top s.heap_start z bs h.tiles k in ground arith;
        heads = λ j. refl;
        heap_start = refl;
        initial_break = refl;
      }

      is_cut : IsCut b total s t
      is_cut = record {
        self = ground arith;
        room = ground arith;
        magic = ground arith;
        size = ground arith;
        free = ground arith;
        on_heap = ground arith;
        footer = ground arith;
        rest_footer = ground arith;
      }

      carved-IsHeap : IsHeap y top t lists (insert_after b y bs)
      carved-IsHeap = cut-IsHeap b total h hb aligned large is_short (omega arith) is_cut

      pub out_of : has y bs ≡ false
      out_of = rest_out b total h hb aligned large is_short (omega arith)

      abbrev c : ℕ
      c = get_size_class_index (size_in s b - total)

      head_out : (s.heads c == y) ≡ false
      head_out =
          let lt = get_size_class_index-lt (size_in s b - total) in
          let n = h.start_ne_null in
          let ib = inside (size_in s) top s.heap_start b bs h.tiles hb in
          elim (head_in s.hdr null (s.heads c) (lists c) (h.free_lists.chains c lt)) [
            | inl e ↦ ground arith
            | inr m ↦ ne_of_has (s.heads c) y bs (h.listed c (s.heads c) lt m) out_of
          ]

      pub split_block-Inserted : Returns (λ _. Inserted y c (cut b total s)) (split_block b total s)
      unfolding split_block
      split_block-Inserted =
          let e : leb (total + min_split) (size_in s b) ≡ true = ground arith in
          let f : ((cut b total s).hdr y).block_size ≡ size_in s b - total = ground arith in
          rw e (
            free_list_insert-Inserted_at y c (cut b total s) (ap get_size_class_index f)
              (ground arith) head_out)

      -- Handing `b` out does not interfere with the listing of the rest.
      handed-Inserted :
          {s2 : State K} → Inserted y c (cut b total s) s2 → Inserted y c t (handed b size s2)
      handed-Inserted {s2} r =
          let lt = get_size_class_index-lt (size_in s b - total) in
          let nb : (b == y) ≡ false = ground arith in
          let w = r.others b nb in
          let hd : (b == s.heads c && not (s.heads c == null)) ≡ false =
            elim (head_in s.hdr null (s.heads c) (lists c) (h.free_lists.chains c lt)) [
              | inl e ↦ ground arith
              | inr m ↦
                  let (k, ne) =
                    listed_block b total h hb aligned large is_short (omega arith) c (s.heads c) lt
                      m in
                  ground arith
            ] in
          record {
            self = ground (arith, r.self);
            others = λ a ne. ground (arith, r.others a ne);
            heads = r.heads;
            ftr = ground (arith, r.ftr);
            bytes = r.bytes;
            heap_start = r.heap_start;
            initial_break = r.initial_break;
            last_allocator_break = r.last_allocator_break;
            stats = ground (arith, r.stats);
            errno = r.errno;
            kernel = r.kernel;
          }

      -- The heap after the split, the listing of the rest and the handing out.
      pub split-IsHeap :
          {s2 : State K}
          → Inserted y c (cut b total s) s2
          → IsHeap null top (handed b size s2) (update lists c (y ∷ lists c)) (insert_after b y bs)
      split-IsHeap {s2} r =
          let k : has y (insert_after b y bs) ≡ true =
            rw (has-insert_after y b y bs) (ground arith) in
          let f : (t.hdr y).block_size ≡ size_in s b - total = ground arith in
          let g : get_size_class_index (t.hdr y).block_size ≡ c = ap get_size_class_index f in
          let r' =
            subst (λ (i : ℕ). Inserted y i t (handed b size s2)) (sym g) (handed-Inserted r) in
          subst
            (λ (i : ℕ).
              IsHeap null top (handed b size s2) (update lists i (y ∷ lists i))
                (insert_after b y bs))
            g (insert-IsHeap carved-IsHeap k r')

pub split_block-whole :
    {K : Type 0} (b total : ℕ) (s : State K)
    → leb (total + min_split) (size_in s b) ≡ false
    → split_block b total s ≡ ok tt s
unfolding split_block
split_block-whole b total s e = rw e
