-- ===== src/Alloc/Represented.antt =====
-- What carries the abstract store of Alloc/Store.antt along when the heap of
-- src/allocator/allocator.c changes.
use mathlib.Core.Path.{subst}
use linux_dynamic_memory_all.Prelude.{
  ℕ, ◌+◌, ◌≡◌, ◌≤◌, ◌<◌, ◌⊎◌, inl, inr, true, false, none, some, List, arith, refl, ap, ◌∙◌,
}
use linux_dynamic_memory_all.Prelude.Tests.{◌==◌, Bool-cases, ==→eq, option_view}
use linux_dynamic_memory_all.Prelude.Lists.{has}
use linux_dynamic_memory_all.Memory.{Ptr, null, header_size, State, update}
use linux_dynamic_memory_all.Alloc.Layout.{apart}
use linux_dynamic_memory_all.Alloc.Inv.{size_in, IsHeap}
use linux_dynamic_memory_all.Alloc.Loose.{block_ne_null}
use linux_dynamic_memory_all.Alloc.Coalesce.{SameInUse}
use linux_dynamic_memory_all.Alloc.Store.{Array, Store, Holds, Represents, some_same}

module _ {K : Type 0} where
  -- A block stays as it is through a call that keeps its mark, its request and its bytes.
  pub Holds-stays :
      (z x : Ptr) (b : Array) (s s' : State K) (bs bs' : List Ptr)
      → Holds s bs x b
      → SameInUse z s s' bs bs'
      → (x == z) ≡ false
      → Holds s' bs' x b
  Holds-stays z x b s s' bs bs' h same ne =
      let (m, u, r, _) = same.stays x h.mem ne h.used in
      record {
        mem = m;
        used = u;
        len = r ∙ h.len;
        same = λ i lt. ap (λ (f : Ptr → ℕ). f (x + header_size + i)) same.bytes ∙ h.same i lt;
      }

  -- A byte of the payload of a block in use is outside the payload of another.
  pub far :
      (top : Ptr) (s : State K) (lists : ℕ → List Ptr) (bs : List Ptr) (x y i : ℕ)
      → IsHeap null top s lists bs
      → has x bs ≡ true
      → (s.hdr x).is_free ≡ 0
      → has y bs ≡ true
      → (s.hdr y).is_free ≡ 0
      → (y == x) ≡ false
      → i < (s.hdr y).requested_size
      → (y + header_size + i < x + header_size)
        ⊎ (x + header_size + (s.hdr x).requested_size ≤ y + header_size + i)
  far top s lists bs x y i h mx ux my uy ne lt =
      let nx : (x == null) ≡ false = let k = block_ne_null h x mx in ground arith in
      let ny : (y == null) ≡ false = let k = block_ne_null h y my in ground arith in
      let fx = h.fits x mx nx ux in
      let fy = h.fits y my ny uy in
      let a = apart (size_in s) top s.heap_start x y bs h.tiles mx my in ground arith

module _ {K : Type 0} {break : K → Ptr} where
  -- A new array in the block `x`, whatever it holds.
  pub added :
      (a : Store) (s : State K) (lists : ℕ → List Ptr) (bs : List Ptr) (x : Ptr) (b : Array)
      → IsHeap null (break s.kernel) s lists bs
      → Holds s bs x b
      → ((y : Ptr) (c : Array) → (y == x) ≡ false → a y ≡ some c → Holds s bs y c)
      → Represents break (update a x (some b)) s
  added a s lists bs x b h hx others = record {
    lists = lists;
    bs = bs;
    heap = h;
    holds = λ y c e. elim (Bool-cases (y == x)) [
      | inl f ↦
          let q : b ≡ c = some_same b c (update a x (some b) y) (rw f refl) e in
          rw (==→eq y x f) (subst (Holds s bs x) q hx)
      | inr f ↦ others y c f (rw f at e)
    ];
  }

  module _ (a : Store) (s : State K) (v : Represents break a s) where
    pub ne_null : (x : Ptr) (b : Array) → a x ≡ some b → (x == null) ≡ false
    ne_null x b e = let k = block_ne_null v.heap x (v.holds x b e).mem in ground arith

    -- A block that was not in use is not in the store.
    pub not_held :
        (x : Ptr)
        → ((z : Ptr) → has z v.bs ≡ true → (s.hdr z).is_free ≡ 0 → (z == x) ≡ false)
        → a x ≡ none
    not_held x fresh = elim (option_view (a x)) [
      | inl e ↦ e
      | inr (b, e) ↦ let h = v.holds x b e in absurd (let n = fresh x h.mem h.used in ground arith)
    ]
