-- ===== src/Alloc/Layout.antt =====
-- The layout of the heap: blocks side by side from `heap_start` to the break.
use linux_dynamic_memory_all.Prelude.{
  ℕ, ◌+◌, ◌≡◌, ◌≤◌, ◌⊎◌, refl, inl, inr, true, false, ◌&&◌, ◌||◌, List, [], ◌∷◌, ◌++◌, arith, ◌∙◌,
  sym, ap,
}
use linux_dynamic_memory_all.Prelude.Tests.{◌==◌, if◌then◌else◌, Bool-cases, ==→eq}
use linux_dynamic_memory_all.Prelude.Lists.{has, erase}
use linux_dynamic_memory_all.Memory.{Ptr, overhead}

-- The blocks `bs` fill the memory from `a` to `top`, in order, with no gap.
abbrev pub Tiles : (Ptr → ℕ) → Ptr → Ptr → List Ptr → Type 0
Tiles size top a [] = a ≡ top
Tiles size top a (b ∷ bs) = (a ≡ b) × (overhead ≤ size b) × Tiles size top (b + size b) bs

-- `y` put behind `x`.
abbrev pub insert_after : Ptr → Ptr → List Ptr → List Ptr
insert_after x y [] = []
insert_after x y (z ∷ zs) = if x == z then z ∷ y ∷ zs else z ∷ insert_after x y zs

pub Tiles-frame :
    (size size' : Ptr → ℕ) (top a : Ptr) (bs : List Ptr)
    → ((x : Ptr) → has x bs ≡ true → size' x ≡ size x)
    → Tiles size top a bs
    → Tiles size' top a bs
Tiles-frame size size' top a [] same t = t
Tiles-frame size size' top a (b ∷ bs) same (at, least, rest) =
    let e : size' b ≡ size b = same b (ground arith) in
    (
      at,
      omega arith,
      rw e (Tiles-frame size size' top (b + size b) bs (λ x h. same x (ground arith)) rest),
    )

module _ (size : Ptr → ℕ) (top : Ptr) where
  pub start_le : (a : Ptr) (bs : List Ptr) → Tiles size top a bs → a ≤ top
  start_le a [] t = omega arith
  start_le a (b ∷ bs) (at, least, rest) = omega (arith, start_le (b + size b) bs rest)

  pub inside :
      (a x : Ptr) (bs : List Ptr)
      → Tiles size top a bs
      → has x bs ≡ true
      → (a ≤ x) × (x + size x ≤ top) × (overhead ≤ size x)
  inside a x [] t h = absurd (ground arith)
  inside a x (b ∷ bs) (at, least, rest) h =
      ground (arith, inside (b + size b) x bs rest, start_le (b + size b) bs rest)

  -- Two blocks are one, or they do not overlap.
  pub apart :
      (a x y : Ptr) (bs : List Ptr)
      → Tiles size top a bs
      → has x bs ≡ true
      → has y bs ≡ true
      → (x ≡ y) ⊎ ((x + size x ≤ y) ⊎ (y + size y ≤ x))
  apart a x y [] t hx hy = absurd (ground arith)
  apart a x y (b ∷ bs) (at, least, rest) hx hy = ground (
    arith,
    apart (b + size b) x y bs rest,
    inside (b + size b) x bs rest,
    inside (b + size b) y bs rest,
  )

  -- A block ends at the break, or another begins there.
  pub next_tile :
      (a x : Ptr) (bs : List Ptr)
      → Tiles size top a bs
      → has x bs ≡ true
      → (x + size x ≡ top) ⊎ (has (x + size x) bs ≡ true)
  next_tile a x [] t h = absurd (ground arith)
  next_tile a x (b ∷ []) (at, least, rest) h = ground arith
  next_tile a x (b ∷ c ∷ bs) (at, least, rest) h =
      ground (arith, next_tile (b + size b) x (c ∷ bs) rest)

  -- A block is the first, or another ends where it begins.
  pub prev_tile :
      (a x : Ptr) (bs : List Ptr)
      → Tiles size top a bs
      → has x bs ≡ true
      → (x ≡ a) ⊎ ((y : Ptr) × (has y bs ≡ true) × (y + size y ≡ x))
  prev_tile a x [] t h = absurd (ground arith)
  prev_tile a x (b ∷ bs) (at, least, rest) h = elim (Bool-cases (x == b)) [
    | inl e ↦ inl (==→eq x b e ∙ sym at)
    | inr e ↦ elim (prev_tile (b + size b) x bs rest (ground arith)) [
      | inl f ↦ inr (b, ground arith, sym f)
      | inr (y, hy, g) ↦ inr (y, ground arith, g)
    ]
  ]

  -- The block `x` grows over the one behind it.
  pub Tiles-merge :
      (size' : Ptr → ℕ) (a x : Ptr) (bs : List Ptr)
      → has x bs ≡ true
      → has (x + size x) bs ≡ true
      → size' x ≡ size x + size (x + size x)
      → ((z : Ptr) → (z == x) ≡ false → size' z ≡ size z)
      → Tiles size top a bs
      → Tiles size' top a (erase (x + size x) bs)
  Tiles-merge size' a x [] hx hy e same t = absurd (ground arith)
  Tiles-merge size' a x (b ∷ []) hx hy e same (at, least, rest) = absurd (ground arith)
  Tiles-merge size' a x (b ∷ c ∷ bs) hx hy e same (at, least, (at', least', rest)) =
      elim (Bool-cases (x == b)) [
        | inl q ↦
            let p : x ≡ b = ==→eq x b q in
            let pb : size x ≡ size b = ap size p in
            let pb' : size' x ≡ size' b = ap size' p in
            let pc : size (x + size x) ≡ size c = ap size (omega arith) in
            let e1 : (x + size x == b) ≡ false = ground arith in
            let e2 : (x + size x == c) ≡ true = ground arith in
            let f : b + size' b ≡ c + size c = omega arith in
            let r = λ (z : Ptr) (h : has z bs ≡ true). inside (c + size c) z bs rest h in
            rw (e1, e2, f)
              (
                at,
                omega arith,
                Tiles-frame size size' top (c + size c) bs (λ z h. same z (ground (arith, r z h)))
                    rest,
              )
        | inr q ↦
            let k : has x (c ∷ bs) ≡ true = ground arith in
            let i = inside (b + size b) x (c ∷ bs) (at', least', rest) k in
            let e1 : (x + size x == b) ≡ false = ground (arith, i) in
            let k' : has (x + size x) (c ∷ bs) ≡ true = ground arith in
            let f : size' b ≡ size b = same b (ground arith) in
            let t = Tiles-merge size' (b + size b) x (c ∷ bs) k k' e same (at', least', rest) in
            rw e1 (at, omega arith, rw f t)
      ]

  -- The block `x` is cut in two at `y`.
  pub Tiles-split :
      (size' : Ptr → ℕ) (a x y : Ptr) (bs : List Ptr)
      → has x bs ≡ true
      → y ≡ x + size' x
      → size' x + size' y ≡ size x
      → overhead ≤ size' x
      → overhead ≤ size' y
      → ((z : Ptr) → (z == x) ≡ false → (z == y) ≡ false → size' z ≡ size z)
      → Tiles size top a bs
      → Tiles size' top a (insert_after x y bs)
  Tiles-split size' a x y [] hx ey e l1 l2 same t = absurd (ground arith)
  Tiles-split size' a x y (b ∷ bs) hx ey e l1 l2 same (at, least, rest) =
      elim (Bool-cases (x == b)) [
        | inl q ↦
            let p : x ≡ b = ==→eq x b q in
            let pb : size x ≡ size b = ap size p in
            let pb' : size' x ≡ size' b = ap size' p in
            let f : y + size' y ≡ b + size b = omega arith in
            let r = λ (z : Ptr) (h : has z bs ≡ true). inside (b + size b) z bs rest h in
            rw q (
              at,
              omega arith,
              (
                omega arith,
                l2,
                rw f (
                    Tiles-frame size size' top (b + size b) bs
                      (λ z h. same z (ground (arith, r z h)) (ground (arith, r z h))) rest),
              ),
            )
        | inr q ↦
            let k : has x bs ≡ true = ground arith in
            let i = inside (b + size b) x bs rest k in
            let f : size' b ≡ size b = same b (ground arith) (ground (arith, i)) in
            let t = Tiles-split size' (b + size b) x y bs k ey e l1 l2 same rest in
            rw q (at, omega arith, rw f t)
      ]

  -- A new block at the top.
  pub Tiles-grow :
      (size' : Ptr → ℕ) (a n : Ptr) (bs : List Ptr)
      → size' top ≡ n
      → overhead ≤ n
      → ((z : Ptr) → has z bs ≡ true → size' z ≡ size z)
      → Tiles size top a bs
      → Tiles size' (top + n) a (bs ++ (top ∷ []))
  Tiles-grow size' a n [] e least same t = (t, omega arith, ap (λ (k : ℕ). top + k) e)
  Tiles-grow size' a n (b ∷ bs) e least same (at, l, rest) =
      let f : size' b ≡ size b = same b (ground arith) in
      (
        at,
        omega arith,
        rw f (Tiles-grow size' (b + size b) n bs e least (λ z h. same z (ground arith)) rest),
      )

pub has-insert_after :
    (z x y : Ptr) (bs : List Ptr) → has z (insert_after x y bs) ≡ (has z bs || (has x bs && z == y))
has-insert_after z x y [] = refl
has-insert_after z x y (b ∷ bs) = ground (arith, has-insert_after z x y bs)

pub has-snoc : (z y : Ptr) (bs : List Ptr) → has z (bs ++ (y ∷ [])) ≡ (has z bs || z == y)
has-snoc z y [] = ground arith
has-snoc z y (b ∷ bs) = ground (arith, has-snoc z y bs)

-- No block occurs twice.
pub gone :
    (size : Ptr → ℕ) (top a y : Ptr) (bs : List Ptr)
    → Tiles size top a bs
    → has y (erase y bs) ≡ false
gone size top a y [] t = refl
gone size top a y (b ∷ bs) (at, least, rest) = elim (Bool-cases (y == b)) [
  | inl e ↦ rw e (elim (Bool-cases (has y bs)) [
    | inl h ↦ absurd (ground (arith, inside size top (b + size b) y bs rest h))
    | inr h ↦ h
  ])
  | inr e ↦ rw (e, e) (gone size top (b + size b) y bs rest)
]
