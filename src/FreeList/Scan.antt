-- ===== src/FreeList/Scan.antt =====
-- The loop of `free_list_find_fit` over one list, of src/allocator/free_list.c.
use linux_dynamic_memory_all.Prelude.{
  ℕ, zero, suc, ◌-◌, ◌≡◌, ◌≤◌, ◌<◌, refl, true, false, ◌&&◌, List, [], ◌∷◌, arith, inl, inr,
}
use linux_dynamic_memory_all.Prelude.Tests.{◌==◌, Bool-cases, leb, ltb}
use linux_dynamic_memory_all.Prelude.Lists.{All, has, length}
use linux_dynamic_memory_all.Memory.{
  Ptr, Header, null, alloc_magic_header, State, Os, Returns, Returns-inv,
}
use linux_dynamic_memory_all.FreeList.{scan}
use linux_dynamic_memory_all.FreeList.Chain.{Chain}

-- The block `y` is no better fit than one that leaves `d` over.
abbrev pub NoBetter : (Ptr → Header) → ℕ → ℕ → Ptr → Type 0
NoBetter m total d y = total ≤ (m y).block_size → d ≤ (m y).block_size - total

-- What the loop over the blocks `xs` returns, when `bf` is the best block so far, leaving `d` over.
pub data Scanned (m : Ptr → Header) (total : ℕ) (bf : Ptr) (d : ℕ) (xs : List Ptr) (b : Ptr)
    : Type 0 where
  kept : b ≡ bf → All (NoBetter m total d) xs → Scanned m total bf d xs b
  found :
      has b xs ≡ true
      → total ≤ (m b).block_size
      → (m b).block_size - total < d
      → All (NoBetter m total ((m b).block_size - total)) xs
      → Scanned m total bf d xs b

All-zero : (m : Ptr → Header) (total d : ℕ) (xs : List Ptr) → d ≡ 0 → All (NoBetter m total d) xs
All-zero m total d [] e = tt
All-zero m total d (x ∷ xs) e = (λ h. omega arith, All-zero m total d xs e)

-- A block that beats the best so far.
Scanned-better :
    (m : Ptr → Header) (total bf d x : ℕ) (xs : List Ptr) (b : Ptr)
    → total ≤ (m x).block_size
    → (m x).block_size - total < d
    → Scanned m total x ((m x).block_size - total) xs b
    → Scanned m total bf d (x ∷ xs) b
Scanned-better m total bf d x xs b fit lt (kept e all) =
    rw e (found (ground arith) fit lt ((λ h. omega arith), all))
Scanned-better m total bf d x xs b fit lt (found mem fit' lt' all) =
    found (ground arith) fit' (omega arith) ((λ h. omega arith), all)

Scanned-worse :
    (m : Ptr → Header) (total bf d x : ℕ) (xs : List Ptr) (b : Ptr)
    → NoBetter m total d x
    → Scanned m total bf d xs b
    → Scanned m total bf d (x ∷ xs) b
Scanned-worse m total bf d x xs b no_better (kept e all) = kept e (no_better, all)
Scanned-worse m total bf d x xs b no_better (found mem fit lt all) =
    found (ground arith) fit lt ((λ h. omega (arith, no_better h)), all)

module _ {K : Type 0} (os : Os K) (s : State K) where
  abbrev pub ScanPost : ℕ → Ptr → ℕ → List Ptr → Ptr → State K → Type 0
  ScanPost total bf d xs b s' = (s' ≡ s) × Scanned s.hdr total bf d xs b

  -- The loop ends with enough fuel, leaves the state alone, and keeps the best block.
  pub scan-Scanned :
      (fuel total before cur bf d : ℕ) (xs : List Ptr)
      → Chain s.hdr before cur xs
      → All (λ y. (s.hdr y).magic_header ≡ alloc_magic_header) xs
      → length xs < fuel
      → Returns (ScanPost total bf d xs) (scan os fuel total cur bf d s)
  unfolding scan
  scan-Scanned zero total before cur bf d xs c g lt = absurd (omega arith)
  scan-Scanned (suc fuel) total before cur bf d [] c g lt =
      let e : (cur == null) ≡ true = ground arith in rw e (refl, kept refl tt)
  scan-Scanned (suc fuel) total before cur bf d (x ∷ xs) (at, ne, back, out, rest) (g, gs) lt =
      let size = (s.hdr x).block_size in
      let e0 : (x == null) ≡ false = ground arith in
      let e1 : ((s.hdr x).magic_header == alloc_magic_header) ≡ true = ground arith in
      rw (at, e0, e1)
        (elim (Bool-cases (leb total size && ltb (size - total) d)) [
          | inl b ↦
              let fit : total ≤ size = ground arith in
              let less : size - total < d = ground arith in
              elim (Bool-cases (size - total == 0)) [
                | inl z ↦
                    let zz : size - total ≡ 0 = ground arith in
                    rw (b, z)
                      (
                        refl,
                        found (ground arith) fit less
                            ((λ h. omega arith), All-zero s.hdr total (size - total) xs zz),
                      )
                | inr z ↦
                    rw (b, z)
                      (let (r, s', q, p) =
                          Returns-inv (ScanPost total x (size - total) xs)
                            (scan os fuel total (s.hdr x).next x (size - total) s)
                            (scan-Scanned fuel total x (s.hdr x).next x (size - total) xs rest gs
                              (omega arith)) in
                        rw q (p.0, Scanned-better s.hdr total bf d x xs r fit less p.1))
              ]
          | inr b ↦
              let worse : NoBetter s.hdr total d x = λ h. ground arith in
              rw b (
                let (r, s', q, p) =
                  Returns-inv (ScanPost total bf d xs) (scan os fuel total (s.hdr x).next bf d s)
                    (scan-Scanned fuel total x (s.hdr x).next bf d xs rest gs (omega arith)) in
                rw q (p.0, Scanned-worse s.hdr total bf d x xs r worse p.1))
        ])
