-- ===== src/FreeList.antt =====
-- src/allocator/free_list.c: the segregated free lists. Each list is doubly linked through the
-- headers of its blocks. A loop over a list runs on `fuel`, one round for each block and one more.
pub mod Chain
pub mod Insert
pub mod FindFit
pub mod Inv
pub mod Remove
pub mod Scan
pub mod SizeClass
pub mod Verify
pub mod Verified
use linux_dynamic_memory_all.Prelude.{
  ℕ, zero, suc, ◌+◌, ◌-◌, Bool, true, false, not, ◌&&◌, ◌||◌, Option, none, some,
}
use linux_dynamic_memory_all.Prelude.Tests.{ltb, leb, ◌==◌, if◌then◌else◌}
use linux_dynamic_memory_all.Memory.{
  Ptr, null, size_max, alloc_magic_header, alloc_magic_footer, mmap_threshold, num_size_classes,
  footer_size, overhead, Os, State, Header, unlink_invalid_size, unlink_allocated,
  unlink_exceeds_break, head_linkage, previous_linkage, next_linkage, unlink_footer,
  find_fit_canary, Cmd, out_of_fuel, pure, ◌>>=◌, ◌>>◌, get, abort_if, set_hdr, set_head, call_sbrk,
}

-- `size_class_limits`.
abbrev pub size_class_limits : ℕ → ℕ
size_class_limits zero = 128
size_class_limits (suc zero) = 256
size_class_limits (suc (suc zero)) = 512
size_class_limits (suc (suc (suc zero))) = 1024
size_class_limits (suc (suc (suc (suc zero)))) = 2048
size_class_limits (suc (suc (suc (suc (suc zero))))) = 4096
size_class_limits (suc (suc (suc (suc (suc (suc zero)))))) = 8192
size_class_limits _ = mmap_threshold

-- The loop of `get_size_class_index` with `rounds` rounds left, at index `i`.
unfoldable pub class_from : ℕ → ℕ → ℕ → ℕ
class_from zero i block_size = num_size_classes - 1
class_from (suc rounds) i block_size =
    let rest = class_from rounds (i + 1) block_size in
    if leb block_size (size_class_limits i) then i else rest

unfoldable pub get_size_class_index : ℕ → ℕ
unfolding class_from
get_size_class_index block_size = class_from (num_size_classes - 1) 0 block_size

-- The test against the break: `heap_end` is the value of `sbrk(0)`, `none` if it failed.
abbrev pub exceeds_break : Option Ptr → Ptr → ℕ → Bool
exceeds_break none block size = false
exceeds_break (some heap_end) block size = leb heap_end block || ltb (heap_end - block) size

-- The address of a block's footer.
abbrev pub footer_at : Ptr → ℕ → Ptr
footer_at block size = block + size - footer_size

module _ {K : Type 0} where
  abbrev pub load : Ptr → Cmd K Header
  load p = get >>= λ s. pure (s.hdr p)

  abbrev pub set_next : Ptr → Ptr → Cmd K (Unit {0})
  set_next p q = do h ← load p; set_hdr p (record h { next = q })

  abbrev pub set_prev : Ptr → Ptr → Cmd K (Unit {0})
  set_prev p q = do h ← load p; set_hdr p (record h { prev = q })

  -- The footer's canary and size agree with the block's.
  abbrev pub footer_matches : State K → Ptr → ℕ → Bool
  footer_matches s block size =
      (s.ftr (footer_at block size)).magic_footer == alloc_magic_footer
      && (s.ftr (footer_at block size)).block_size == size

  unfoldable pub free_list_reset : Cmd K (Unit {0})
  free_list_reset = do
    set_head 0 null
    set_head 1 null
    set_head 2 null
    set_head 3 null
    set_head 4 null
    set_head 5 null
    set_head 6 null
    set_head 7 null

  unfoldable pub free_list_insert : Ptr → Cmd K (Unit {0})
  free_list_insert block = if block == null then pure tt else do
    b ← load block
    let idx = get_size_class_index b.block_size
    s ← get
    set_next block (s.heads idx)
    set_prev block null
    s' ← get
    (if s'.heads idx == null then pure tt else set_prev (s'.heads idx) block)
    set_head idx block
    b' ← load block
    set_hdr block (record b' { is_free = 1 })

  -- The writes of `free_list_remove`.
  unfoldable pub unlink : Ptr → ℕ → Cmd K (Unit {0})
  unlink block idx = do
    b ← load block
    (if b.prev == null then set_head idx b.next else set_next b.prev b.next)
    b' ← load block
    (if b'.next == null then pure tt else set_prev b'.next b'.prev)
    b'' ← load block
    set_hdr block (record b'' { next = null; prev = null; is_free = 0 })

  module _ (os : Os K) where
    unfoldable pub free_list_remove : Ptr → Cmd K (Unit {0})
    unfolding unlink
    free_list_remove block = if block == null then pure tt else do
      b ← load block
      abort_if (ltb b.block_size overhead) unlink_invalid_size
      abort_if (b.is_free == 0) unlink_allocated
      heap_end ← call_sbrk os 0
      abort_if (exceeds_break heap_end block b.block_size) unlink_exceeds_break
      let idx = get_size_class_index b.block_size
      s ← get
      abort_if (b.prev == null && not (s.heads idx == block)) head_linkage
      abort_if (not (b.prev == null) && not ((s.hdr b.prev).next == block)) previous_linkage
      abort_if (not (b.next == null) && not ((s.hdr b.next).prev == block)) next_linkage
      abort_if (not (footer_matches s block b.block_size)) unlink_footer
      unlink block idx

    -- The `while (curr)` loop of `free_list_find_fit`; it returns `best_fit`.
    unfoldable pub scan : ℕ → ℕ → (curr best_fit : Ptr) → ℕ → Cmd K Ptr
    scan zero total_size curr best_fit min_diff = λ _. out_of_fuel
    scan (suc fuel) total_size curr best_fit min_diff = if curr == null then pure best_fit else do
      c ← load curr
      abort_if (not (c.magic_header == alloc_magic_header)) find_fit_canary
      let diff = c.block_size - total_size
      let better = leb total_size c.block_size && ltb diff min_diff
      let rest =
          scan fuel total_size c.next (if better then curr else best_fit)
            (if better then diff else min_diff)
      if better && diff == 0 then pure curr else rest

    -- The `for` loop, with `rounds` classes left from class `i`.
    unfoldable pub find_from : ℕ → ℕ → ℕ → ℕ → Cmd K Ptr
    find_from fuel zero i total_size = pure null
    find_from fuel (suc rounds) i total_size = do
      s ← get
      best_fit ← scan fuel total_size (s.heads i) null size_max
      let rest = find_from fuel rounds (i + 1) total_size
      if best_fit == null then rest else (do free_list_remove best_fit; pure best_fit)

    unfoldable pub free_list_find_fit : ℕ → ℕ → Cmd K Ptr
    unfolding scan find_from
    free_list_find_fit fuel total_size =
        find_from fuel (num_size_classes - get_size_class_index total_size)
          (get_size_class_index total_size) total_size

    -- The checks on one block; `false` is the return of -1.
    unfoldable pub verify_block : ℕ → Ptr → Cmd K Bool
    verify_block i curr = do
      c ← load curr
      if not (c.magic_header == alloc_magic_header) || c.is_free == 0 || ltb c.block_size overhead
          then pure false
          else (do
            heap_end ← call_sbrk os 0
            s ← get
            pure (
                not (exceeds_break heap_end curr c.block_size)
                && not (
                    (c.prev == null && not (s.heads i == curr))
                    || (not (c.prev == null) && not ((s.hdr c.prev).next == curr))
                    || (not (c.next == null) && not ((s.hdr c.next).prev == curr)))
                && footer_matches s curr c.block_size))

    -- The `while (curr)` loop of `free_list_verify_integrity`.
    unfoldable pub verify_list : ℕ → ℕ → Ptr → Cmd K Bool
    unfolding verify_block
    verify_list zero i curr = λ _. out_of_fuel
    verify_list (suc fuel) i curr = if curr == null then pure true else do
      good ← verify_block i curr
      c ← load curr
      let rest = verify_list fuel i c.next
      if good then rest else pure false

    unfoldable pub verify_from : ℕ → ℕ → ℕ → Cmd K Bool
    verify_from fuel zero i = pure true
    verify_from fuel (suc rounds) i = do
      s ← get
      good ← verify_list fuel i (s.heads i)
      let rest = verify_from fuel rounds (i + 1)
      if good then rest else pure false

    unfoldable pub free_list_verify_integrity : ℕ → Cmd K Bool
    unfolding verify_list verify_from
    free_list_verify_integrity fuel = verify_from fuel num_size_classes 0
