-- ===== src/FreeList/Verify.antt =====
-- `free_list_verify_integrity` of src/allocator/free_list.c.
use linux_dynamic_memory_all.Prelude.{
  ℕ, zero, suc, ◌+◌, ◌≡◌, ◌<◌, true, false, List, [], ◌∷◌, arith, refl,
}
use linux_dynamic_memory_all.Prelude.Tests.{◌==◌}
use linux_dynamic_memory_all.Prelude.Lists.{has, length, All-has}
use linux_dynamic_memory_all.Memory.{Ptr, null, num_size_classes, State, Os, ok}
use linux_dynamic_memory_all.Kernel.{IsOs}
use linux_dynamic_memory_all.FreeList.{
  free_list_verify_integrity, verify_from, verify_list, verify_block,
}
use linux_dynamic_memory_all.FreeList.Chain.{Chain, next_in, prev_in, ne_null}
use linux_dynamic_memory_all.FreeList.Inv.{IsFreeLists, IsFreeBlock}

module _ {K : Type 0} {os : Os K} {break : K → Ptr} (o : IsOs os break) {s : State K}
    {lists : ℕ → List Ptr} (v : IsFreeLists (break s.kernel) s lists) where
  verify_block-ok :
      (i x : ℕ) → i < num_size_classes → has x (lists i) ≡ true → verify_block os i x s ≡ ok true s
  unfolding verify_block
  verify_block-ok i x i_lt mem =
      let c = v.chains i i_lt in
      let b = All-has (IsFreeBlock (break s.kernel) s i) x (lists i) (v.blocks i i_lt) mem in
      let n = next_in s.hdr x null (s.heads i) (lists i) c mem in
      let p = prev_in s.hdr x null (s.heads i) (lists i) c mem in
      let z = ne_null s.hdr x null (s.heads i) (lists i) c mem in
      ground (arith, o.sbrk_zero s.kernel, b.magic, b.free, b.least, b.within, b.footer)

  -- The loop over a chain whose blocks are all good.
  verify_list-ok :
      (fuel i before cur : ℕ) (xs : List Ptr)
      → Chain s.hdr before cur xs
      → ((a : Ptr) → has a xs ≡ true → verify_block os i a s ≡ ok true s)
      → length xs < fuel
      → verify_list os fuel i cur s ≡ ok true s
  unfolding verify_list
  verify_list-ok zero i before cur xs c good lt = absurd (omega arith)
  verify_list-ok (suc fuel) i before cur [] c good lt =
      let e : (cur == null) ≡ true = ground arith in rw e refl
  verify_list-ok (suc fuel) i before cur (x ∷ xs) (at, ne, back, out, rest) good lt =
      let e : (x == null) ≡ false = ground arith in
      let ih =
        verify_list-ok fuel i x (s.hdr x).next xs rest (λ a h. good a (ground arith))
          (omega arith) in
      rw (at, e, good x (ground arith), ih) refl

  module _ (fuel : ℕ) (enough : (i : ℕ) → i < num_size_classes → length (lists i) < fuel) where
    verify_from-ok :
        (rounds i : ℕ) → i + rounds ≡ num_size_classes → verify_from os fuel rounds i s ≡ ok true s
    unfolding verify_from
    verify_from-ok zero i e = refl
    verify_from-ok (suc rounds) i e =
        let lt : i < num_size_classes = omega arith in
        let good =
          verify_list-ok fuel i null (s.heads i) (lists i) (v.chains i lt)
            (λ a h. verify_block-ok i a lt h) (enough i lt) in
        rw (good, verify_from-ok rounds (i + 1) (omega arith)) refl

    pub free_list_verify_integrity-ok : free_list_verify_integrity os fuel s ≡ ok true s
    unfolding free_list_verify_integrity
    free_list_verify_integrity-ok = verify_from-ok num_size_classes 0 refl
