-- ===== src/Alloc/SessionTests.antt =====
-- A client's calls on a small heap.
use mathlib.Core.Path.{subst}
use linux_dynamic_memory_all.Prelude.{
  ℕ, some, none, ◌+◌, ◌%◌, ◌≡◌, ◌≤◌, ◌<◌, ◌⊎◌, Bool, List, [], ◌∷◌, ◌||◌, inl, inr, sym, ◌∙◌, refl,
  false, arith,
}
use linux_dynamic_memory_all.Prelude.Tests.{◌==◌, if◌then◌else◌, Bool-cases, ==→eq}
use linux_dynamic_memory_all.Prelude.Lists.{length}
use linux_dynamic_memory_all.Memory.{
  Ptr, null, Header, alignment, header_size, footer_size, update, Returns,
}
use linux_dynamic_memory_all.FreeList.Chain.{Chain}
use linux_dynamic_memory_all.Alloc.Free.{my_free}
use linux_dynamic_memory_all.Alloc.Session.{IsEnough, Reach, start, Reach-free, Reach-apart}
use linux_dynamic_memory_all.Alloc.Store.{
  Array, some_same, Store, Represents, Holds, Refined, ask_realloc, perform,
}
use linux_dynamic_memory_all.Alloc.Refine.{perform-Refined}
use linux_dynamic_memory_all.Alloc.Tests.{
  break_of, small, small_lists, small_blocks, small_os, small_os-IsOs, small-IsHeap,
}

-- The client holds the two blocks in use.
abbrev two_live : Ptr → Bool
two_live z = z == 4096 || z == 4352

small-Reach : Reach small_os break_of two_live small
small-Reach = start small_lists small_blocks small-IsHeap (λ z l. ground arith)

-- A chain from NULL is empty.
no_links :
    (m : Ptr → Header) (before cur : Ptr) (xs : List Ptr)
    → cur ≡ null
    → Chain m before cur xs
    → length xs ≡ 0
no_links m before cur [] e c = refl
no_links m before cur (x ∷ xs) e (at, ne, back, out, rest) = absurd (ne (sym at ∙ e))

short_links : (xs : List Ptr) → Chain small.hdr null 4176 xs → length xs < 2
short_links [] c = ground arith
short_links (x ∷ xs) (at, ne, back, out, rest) =
    let e = no_links small.hdr x (small.hdr x).next xs (ground arith) rest in omega arith

small-IsEnough : IsEnough small_os break_of 2 small
small-IsEnough lists bs h i lt =
    let c = h.free_lists.chains i lt in
    elim (Bool-cases (i == 1)) [
      | inl e ↦ short_links (lists i) (rw e at c)
      | inr e ↦
          let z = no_links small.hdr null (small.heads i) (lists i) (ground arith) c in omega arith
    ]

Reach-free_example :
    ((4096 + header_size) % alignment ≡ 0)
    × (4096 + header_size + (small.hdr 4096).requested_size + footer_size ≤ break_of small.kernel)
    × Returns
        (λ _ s'. Reach small_os break_of (update two_live 4096 false) s')
        (my_free small_os (4096 + header_size) small)
Reach-free_example = Reach-free small_os-IsOs two_live small 4096 small-Reach refl

Reach-apart_example :
    (4096 + header_size + (small.hdr 4096).requested_size + footer_size ≤ 4352)
    ⊎ (4352 + header_size + (small.hdr 4352).requested_size + footer_size ≤ 4096)
Reach-apart_example = Reach-apart small_os-IsOs two_live small 4096 4352 small-Reach refl refl refl

abbrev zeros_of : ℕ → Array
zeros_of n = record { len = n; data_at = λ i. 0 }

-- The client has an array of ten bytes in the first block and one of sixteen in the last.
abbrev two_arrays : Store
two_arrays x =
    if x == 4096 then some (zeros_of 10) else if x == 4352 then some (zeros_of 16) else none

small-Represents : Represents break_of two_arrays small
small-Represents = record {
  lists = small_lists;
  bs = small_blocks;
  heap = small-IsHeap;
  holds = λ x b e. elim (Bool-cases (x == 4096)) [
    | inl f ↦
        subst (Holds small small_blocks x) (some_same (zeros_of 10) b (two_arrays x) (rw f refl) e)
          (rw (==→eq x 4096 f)
            (record { mem = refl; used = refl; len = refl; same = λ i lt. refl }))
    | inr f ↦ elim (Bool-cases (x == 4352)) [
      | inl g ↦
          subst (Holds small small_blocks x)
            (some_same (zeros_of 16) b (two_arrays x) (rw (f, g) refl) e)
            (rw (==→eq x 4352 g)
              (record { mem = refl; used = refl; len = refl; same = λ i lt. refl }))
      | inr g ↦ absurd (ground arith)
    ]
  ];
}

perform-Refined_example :
    Returns
      (Refined break_of two_arrays (ask_realloc 4096 200))
      (perform small_os 2 (ask_realloc 4096 200) small)
perform-Refined_example =
    perform-Refined small_os-IsOs two_arrays small (ask_realloc 4096 200) 2 small-Represents
      (zeros_of 10, refl, ground arith, ground arith) small-IsEnough
