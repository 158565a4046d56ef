-- ===== src/Alloc/RefineHeld.antt =====
-- my_free, my_realloc and a write of the client, on an array of the abstract store of
-- Alloc/Store.antt.
use mathlib.Core.Path.{subst}
use linux_dynamic_memory_all.Prelude.{
  ℕ, ◌+◌, ◌≡◌, ◌<◌, inl, inr, none, some, arith, refl, ap, sym, ◌∙◌,
}
use linux_dynamic_memory_all.Prelude.Tests.{◌==◌, Bool-cases}
use linux_dynamic_memory_all.Memory.{Ptr, null, header_size, State, update}
use linux_dynamic_memory_all.Alloc.Inv.{IsHeap}
use linux_dynamic_memory_all.Alloc.FreeLaws.{Freed}
use linux_dynamic_memory_all.Alloc.Resize.{Resized}
use linux_dynamic_memory_all.Alloc.Relocate.{Relocated, not_moved, moved, bytes-IsHeap}
use linux_dynamic_memory_all.Alloc.ReallocLaws.{Realloced, in_place, elsewhere}
use linux_dynamic_memory_all.Alloc.Store.{
  Array, Store, ask_realloc, ask_free, ask_write, no_realloc, realloced, freed, written, Represents,
  Refined,
}
use linux_dynamic_memory_all.Alloc.Represented.{Holds-stays, added, far, ne_null, not_held}

module _ {K : Type 0} {break : K → Ptr} where
  module _ (a : Store) (s : State K) (v : Represents break a s) where
    pub free-Refined :
        (x : Ptr) (b : Array) (s' : State K)
        → a x ≡ some b
        → Freed x (break s.kernel) s v.bs s'
        → Refined break a (ask_free x) null s'
    free-Refined x b s' e f = record {
      after = update a x none;
      change = freed;
      represents = record {
        lists = f.lists';
        bs = f.bs';
        heap =
            subst (λ (k : Ptr). IsHeap null k s' f.lists' f.bs') (sym (ap break f.kernel)) f.heap;
        holds = λ y c k. elim (Bool-cases (y == x)) [
          | inl g ↦ absurd (ground arith)
          | inr g ↦ Holds-stays x y c s s' v.bs f.bs' (v.holds y c (rw g at k)) f.in_use g
        ];
      };
    }

    pub write-Refined :
        (x i w : ℕ) (b : Array)
        → a x ≡ some b
        → i < b.len
        → Refined break a
            (ask_write x i w)
            null
            (record s { bytes = update s.bytes (x + header_size + i) w })
    write-Refined x i w b e lt =
        let hx = v.holds x b e in
        let c : Array = record { len = b.len; data_at = update b.data_at i w } in
        record {
          after = update a x (some c);
          change = written b e;
          represents =
              added a (record s { bytes = update s.bytes (x + header_size + i) w }) v.lists v.bs x c
                (bytes-IsHeap (update s.bytes (x + header_size + i) w) v.heap)
                (record {
                  mem = hx.mem;
                  used = hx.used;
                  len = hx.len;
                  same = λ j l. ground (arith, hx.same j l);
                })
                (λ y d ne k.
                  let hy = v.holds y d k in
                  record {
                    mem = hy.mem;
                    used = hy.used;
                    len = hy.len;
                    same = λ j l.
                        let f =
                          far (break s.kernel) s v.lists v.bs x y j v.heap hx.mem hx.used hy.mem
                            hy.used ne (ground (arith, hy.len)) in
                        ground (arith, hy.same j l, hx.len);
                  });
        }

    -- The store after a realloc of `x` that gives `y`.
    moved_to : Ptr → Ptr → Array → Store
    moved_to x y c = update (update a x none) y (some c)

    in_place-Refined :
        (x size p : ℕ) (b : Array) (s' : State K)
        → a x ≡ some b
        → Resized x size (break s.kernel) s v.bs p s'
        → Refined break a (ask_realloc x size) p s'
    unfolding moved_to
    in_place-Refined x size p b s' e r =
        let d : ℕ → ℕ = λ i. s'.bytes (x + header_size + i) in
        let c : Array = record { len = size; data_at = d } in
        let hx = v.holds x b e in
        rw (r.payload) (record {
          after = moved_to x x c;
          change = realloced b x d e (inl refl) (λ i lt.
              ap (λ (f : Ptr → ℕ). f (x + header_size + i)) r.in_use.bytes
              ∙ hx.same i (ground arith));
          represents =
              added (update a x none) s' r.lists' r.bs' x c
                (subst (λ (k : Ptr). IsHeap null k s' r.lists' r.bs') (sym (ap break r.kernel))
                  r.heap)
                (record { mem = r.mem; used = r.used; len = r.requested; same = λ i lt. refl })
                (λ y k ne q.
                  Holds-stays x y k s s' v.bs r.bs' (v.holds y k (rw ne at q)) r.in_use ne);
        })

    elsewhere-Refined :
        (x size p : ℕ) (b : Array) (s' : State K)
        → a x ≡ some b
        → Relocated break x size s v.bs p s'
        → Refined break a (ask_realloc x size) p s'
    unfolding moved_to
    elsewhere-Refined x size p b s' e (not_moved lists pn err h same st) = rw pn (record {
      after = a;
      change = no_realloc;
      represents = record {
        lists = lists;
        bs = v.bs;
        heap = h;
        holds =
            λ y c k. Holds-stays null y c s s' v.bs v.bs (v.holds y c k) same (ne_null a s v y c k);
      };
    })
    elsewhere-Refined x size p b s' e (moved y lists bs at h hy uy ry fresh bytes same) =
        let d : ℕ → ℕ = λ i. s'.bytes (y + header_size + i) in
        let c : Array = record { len = size; data_at = d } in
        let hx = v.holds x b e in
        rw at (record {
          after = moved_to x y c;
          change = realloced b y d e (inr (not_held a s v y fresh)) (λ i lt.
              ap (λ (f : Ptr → ℕ). f (y + header_size + i)) bytes
              ∙ ground (arith, at, hx.len, hx.same i));
          represents =
              added (update a x none) s' lists bs y c h
                (record { mem = hy; used = uy; len = ry; same = λ i lt. refl })
                (λ z k ne q. elim (Bool-cases (z == x)) [
                  | inl g ↦ absurd (ground arith)
                  | inr g ↦
                      let hz = v.holds z k (rw g at q) in
                      let (mz, uz, rz, _) = same.stays z hz.mem g hz.used in
                      record {
                        mem = mz;
                        used = uz;
                        len = rz ∙ hz.len;
                        same = λ i lt.
                            let f =
                              far (break s'.kernel) s' lists bs y z i h hy uy mz uz ne
                                (ground (arith, hz.len)) in
                            ap (λ (f : Ptr → ℕ). f (z + header_size + i)) bytes
                            ∙ ground (arith, at, hz.same i lt);
                      }
                ]);
        })

    pub realloc-Refined :
        (x size p : ℕ) (b : Array) (s' : State K)
        → a x ≡ some b
        → Realloced break x size s v.bs p s'
        → Refined break a (ask_realloc x size) p s'
    realloc-Refined x size p b s' e (in_place r) = in_place-Refined x size p b s' e r
    realloc-Refined x size p b s' e (elsewhere r) = elsewhere-Refined x size p b s' e r
