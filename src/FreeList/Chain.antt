-- ===== src/FreeList/Chain.antt =====
-- A doubly linked list of headers, as src/allocator/free_list.c keeps one for each size class.
use linux_dynamic_memory_all.Prelude.{
  ◌≡◌, refl, ◌≢◌, ◌∙◌, sym, ◌⊎◌, inl, inr, true, false, not, ◌&&◌, List, [], ◌∷◌, arith,
}
use linux_dynamic_memory_all.Prelude.Tests.{◌==◌, if◌then◌else◌, Bool-cases, ==→eq}
use linux_dynamic_memory_all.Prelude.Lists.{has, erase, not-has-erase}
use linux_dynamic_memory_all.Memory.{Ptr, null, Header}

-- From `cur` the `next` links lead through the distinct blocks `xs` to NULL, and each `prev` link
-- names the block before it, `before` at the first.
abbrev pub Chain : (Ptr → Header) → Ptr → Ptr → List Ptr → Type 0
Chain m before cur [] = cur ≡ null
Chain m before cur (x ∷ xs) =
    (cur ≡ x)
    × (x ≢ null)
    × ((m x).prev ≡ before)
    × (has before (x ∷ xs) ≡ false)
    × Chain m x (m x).next xs

-- A chain depends on the links of its own blocks only.
pub Chain-frame :
    (m m' : Ptr → Header) (before cur : Ptr) (xs : List Ptr)
    → ((a : Ptr) → has a xs ≡ true → ((m' a).next ≡ (m a).next) × ((m' a).prev ≡ (m a).prev))
    → Chain m before cur xs
    → Chain m' before cur xs
Chain-frame m m' before cur [] same c = c
Chain-frame m m' before cur (x ∷ xs) same (at, ne, back, out, rest) = (
  at,
  ne,
  ground (arith, same x),
  out,
  rw ((same x (ground arith)).0)
      (Chain-frame m m' x (m x).next xs (λ a h. same a (ground arith)) rest),
)

module _ (m : Ptr → Header) where
  -- What stands before a chain is no member of it.
  pub before_out :
      (before cur : Ptr) (xs : List Ptr) → Chain m before cur xs → has before xs ≡ false
  before_out before cur [] c = refl
  before_out before cur (x ∷ xs) c = ground arith

  -- No member is NULL.
  pub ne_null :
      (x before cur : Ptr) (xs : List Ptr) → Chain m before cur xs → has x xs ≡ true → x ≢ null
  ne_null x before cur [] c h = absurd (ground arith)
  ne_null x before cur (y ∷ ys) (at, ne, back, out, rest) h =
      ground (arith, ne_null x y (m y).next ys rest)

  pub head_in :
      (before cur : Ptr) (xs : List Ptr)
      → Chain m before cur xs
      → (cur ≡ null) ⊎ (has cur xs ≡ true)
  head_in before cur [] c = ground arith
  head_in before cur (y ∷ ys) c = ground arith

  pub head_ne :
      (x before cur : Ptr) (xs : List Ptr)
      → Chain m before cur xs
      → x ≢ null
      → has x xs ≡ false
      → (cur == x) ≡ false
  head_ne x before cur [] c ne out = ground arith
  head_ne x before cur (y ∷ ys) c ne out = ground arith

  -- Once erased, a member is gone.
  pub not-has-erase_self :
      (x before cur : Ptr) (xs : List Ptr) → Chain m before cur xs → has x (erase x xs) ≡ false
  not-has-erase_self x before cur [] c = refl
  not-has-erase_self x before cur (y ∷ ys) (at, ne, back, out, rest) =
      ground (arith, not-has-erase_self x y (m y).next ys rest, before_out y (m y).next ys rest)

  -- The block after a member is another member that links back to it, or there is none.
  pub next_in :
      (x before cur : Ptr) (xs : List Ptr)
      → Chain m before cur xs
      → has x xs ≡ true
      → ((m x).next ≡ null)
        ⊎ ((has (m x).next xs ≡ true) × ((m (m x).next).prev ≡ x) × (((m x).next == x) ≡ false))
  next_in x before cur [] c h = absurd (ground arith)
  next_in x before cur (y ∷ []) c h = ground arith
  next_in x before cur (y ∷ z ∷ ys) (at, ne, back, out, rest) h =
      ground (arith, next_in x y (m y).next (z ∷ ys) rest)

  -- The block before a member is a member that links to it, or the member is the first.
  pub prev_in :
      (x before cur : Ptr) (xs : List Ptr)
      → Chain m before cur xs
      → has x xs ≡ true
      → ((cur ≡ x) × ((m x).prev ≡ before))
        ⊎ (((cur == x) ≡ false)
            × (has (m x).prev xs ≡ true)
            × ((m (m x).prev).next ≡ x)
            × ((m x).prev ≢ null))
  prev_in x before cur [] c h = absurd (ground arith)
  prev_in x before cur (y ∷ ys) (at, ne, back, out, rest) h = elim (Bool-cases (x == y)) [
    | inl e ↦ ground arith
    | inr e ↦ ground (arith, prev_in x y (m y).next ys rest, ne_null x y (m y).next ys rest)
  ]

-- `m'` is `m` with the block `x` unlinked: its neighbours link to each other.
pub record Unlinked (m m' : Ptr → Header) (x : Ptr) : Type 0 where
  pub next_at :
      (a : Ptr)
      → (a == x) ≡ false
      → (m' a).next
        ≡ (if a == (m x).prev && not ((m x).prev == null) then (m x).next else (m a).next)
  pub prev_at :
      (a : Ptr)
      → (a == x) ≡ false
      → (m' a).prev
        ≡ (if a == (m x).next && not ((m x).next == null) then (m x).prev else (m a).prev)

module _ {m m' : Ptr → Header} {x : Ptr} (u : Unlinked m m' x) where
  Unlinked-Chain_first :
      (before : Ptr) (ys : List Ptr) → Chain m before x (x ∷ ys) → Chain m' before (m x).next ys
  Unlinked-Chain_first before [] (at, ne, back, out, rest) = rest
  Unlinked-Chain_first before (y ∷ ys) (at, ne, back, out, (at', ne', back', out', rest)) = (
    at',
    ne',
    ground (arith, u.prev_at y),
    ground arith,
    Chain-frame m m' y (m' y).next ys
        (λ a h. (
          ground (arith, u.next_at a, before_out m y (m y).next ys rest),
          ground (arith, u.prev_at a, before_out m y (m y).next ys rest),
        ))
        (let e : (m' y).next ≡ (m y).next = ground (arith, u.next_at y) in rw e rest),
  )

  -- Unlinking a member leaves a chain of the others.
  pub Unlinked-Chain :
      (before cur : Ptr) (xs : List Ptr)
      → Chain m before cur xs
      → has x xs ≡ true
      → Chain m' before (if cur == x then (m x).next else cur) (erase x xs)
  Unlinked-Chain before cur [] c h = absurd (ground arith)
  Unlinked-Chain before cur (y ∷ ys) (at, ne, back, out, rest) h = elim (Bool-cases (x == y)) [
    | inl e ↦
        let p : x ≡ y = ==→eq x y e in
        let q : cur ≡ x = at ∙ sym p in
        rw e (
          let f : (if cur == x then (m x).next else cur) ≡ (m x).next = ground arith in
          rw f (Unlinked-Chain_first before ys (rw p (refl, ne, back, out, rest))))
    | inr e ↦
        let k : has x ys ≡ true = ground arith in
        let z : x ≢ null = ne_null m x y (m y).next ys rest k in
        let n = next_in m x y (m y).next ys rest k in
        let o : has y ys ≡ false = before_out m y (m y).next ys rest in
        let b = prev_in m x y (m y).next ys rest k in
        let f : (m' y).next ≡ (if (m y).next == x then (m x).next else (m y).next) =
          ground (arith, u.next_at y, b) in
        let g : (m' y).prev ≡ before = ground (arith, u.prev_at y, n) in
        rw e (
          ground arith,
          ne,
          g,
          ground (arith, not-has-erase before x ys),
          rw f (Unlinked-Chain y (m y).next ys rest k),
        )
  ]

-- A new block in front of a chain.
pub Chain-cons :
    (m m' : Ptr → Header) (x cur : Ptr) (xs : List Ptr)
    → x ≢ null
    → has x xs ≡ false
    → (m' x).next ≡ cur
    → (m' x).prev ≡ null
    → ((a : Ptr) → (a == x) ≡ false → (m' a).next ≡ (m a).next)
    → ((a : Ptr)
        → (a == x) ≡ false
        → (m' a).prev ≡ (if a == cur && not (cur == null) then x else (m a).prev))
    → Chain m null cur xs
    → Chain m' null x (x ∷ xs)
Chain-cons m m' x cur [] ne out nx pv sn sp c = (refl, ne, pv, ground arith, nx ∙ c)
Chain-cons m m' x cur (y ∷ ys) ne out nx pv sn sp (at, ne', back, out', rest) = (
  refl,
  ne,
  pv,
  ground arith,
  (
    nx ∙ at,
    ne',
    ground (arith, sp y),
    out,
    rw (sn y (ground arith)) (
        Chain-frame m m' y (m y).next ys
          (λ a h. (sn a (ground arith), ground (arith, sp a, before_out m y (m y).next ys rest)))
          rest),
  ),
)
