-- ===== src/FreeList/Inv.antt =====
-- The invariant of the segregated free lists of src/allocator/free_list.c.
use linux_dynamic_memory_all.Prelude.{ℕ, ◌+◌, ◌≡◌, ◌≤◌, ◌<◌, true, false, List, arith}
use linux_dynamic_memory_all.Prelude.Tests.{◌==◌}
use linux_dynamic_memory_all.Prelude.Lists.{All, All-has, All-map, has}
use linux_dynamic_memory_all.Memory.{
  Ptr, null, size_max, alloc_magic_header, overhead, num_size_classes, State,
}
use linux_dynamic_memory_all.FreeList.{get_size_class_index, footer_matches, footer_at}
use linux_dynamic_memory_all.FreeList.Chain.{Chain, Chain-frame, before_out}

module _ {K : Type 0} (top : Ptr) (s : State K) where
  -- A free block of size class `i` below the break `top`, with its canaries in place.
  pub record IsFreeBlock (i : ℕ) (x : Ptr) : Type 0 where
    pub magic : (s.hdr x).magic_header ≡ alloc_magic_header
    pub free : (s.hdr x).is_free ≡ 1
    pub class : get_size_class_index (s.hdr x).block_size ≡ i
    pub least : overhead ≤ (s.hdr x).block_size
    pub within : x + (s.hdr x).block_size ≤ top
    pub footer : footer_matches s x (s.hdr x).block_size ≡ true

  -- `lists i` are the blocks of class `i`, in the order of the links from `heads i`.
  pub record IsFreeLists (lists : ℕ → List Ptr) : Type 0 where
    pub top_le : top ≤ size_max
    pub chains : (i : ℕ) → i < num_size_classes → Chain s.hdr null (s.heads i) (lists i)
    pub blocks : (i : ℕ) → i < num_size_classes → All (IsFreeBlock i) (lists i)

module _ {K : Type 0} {top : Ptr} {s : State K} {lists : ℕ → List Ptr}
    (v : IsFreeLists top s lists) where
  pub block_of :
      (i : ℕ) (x : Ptr) → i < num_size_classes → has x (lists i) ≡ true → IsFreeBlock top s i x
  block_of i x lt h = All-has (IsFreeBlock top s i) x (lists i) (v.blocks i lt) h

  -- No block is in the lists of two classes.
  pub disjoint :
      (i j : ℕ) (x y : Ptr)
      → i < num_size_classes
      → j < num_size_classes
      → has x (lists i) ≡ true
      → has y (lists j) ≡ true
      → (i == j) ≡ false
      → (x == y) ≡ false
  disjoint i j x y li lj hx hy ne =
      ground (arith, (block_of i x li hx).class, (block_of j y lj hy).class)

  -- No list holds NULL.
  pub null_out : (i : ℕ) → i < num_size_classes → has null (lists i) ≡ false
  null_out i lt = before_out s.hdr null (s.heads i) (lists i) (v.chains i lt)

-- The invariant depends on the heads and on the headers and footers of the listed blocks only.
pub IsFreeLists-frame :
    {K : Type 0} (top top' : Ptr) (s s' : State K) (lists : ℕ → List Ptr)
    → top ≤ top'
    → top' ≤ size_max
    → ((i : ℕ) → s'.heads i ≡ s.heads i)
    → ((i : ℕ) (z : Ptr)
        → i < num_size_classes
        → has z (lists i) ≡ true
        → (s'.hdr z ≡ s.hdr z)
          × (s'.ftr (footer_at z (s.hdr z).block_size) ≡ s.ftr (footer_at z (s.hdr z).block_size)))
    → IsFreeLists top s lists
    → IsFreeLists top' s' lists
IsFreeLists-frame top top' s s' lists le le' heads same v = record {
  top_le = le';
  chains = λ i lt. rw (heads i) (
      Chain-frame s.hdr s'.hdr null (s.heads i) (lists i)
        (λ a h. let e = same i a lt h in (ground arith, ground arith)) (v.chains i lt));
  blocks = λ i lt.
      All-map (IsFreeBlock top s i) (IsFreeBlock top' s' i) (lists i)
        (λ a h b. let e = same i a lt h in ground arith) (v.blocks i lt);
}
