-- ===== src/Alloc/RefineNew.antt =====
-- my_malloc and my_calloc of src/allocator/allocator.c put a new array in the abstract store of
-- Alloc/Store.antt.
use mathlib.Core.Path.{subst}
use linux_dynamic_memory_all.Prelude.{
  ℕ, ◌+◌, ◌*◌, ◌≡◌, ◌≤◌, ◌<◌, ◌≢◌, ◌⊎◌, inr, true, false, some, arith, refl, sym, ◌∙◌,
}
use linux_dynamic_memory_all.Prelude.Tests.{◌==◌, if◌then◌else◌}
use linux_dynamic_memory_all.Memory.{Ptr, null, header_size, State, update}
use linux_dynamic_memory_all.Alloc.MallocLaws.{Malloced, no_memory, gave}
use linux_dynamic_memory_all.Alloc.Relocate.{bytes-IsHeap}
use linux_dynamic_memory_all.Alloc.Store.{
  Store, ask_malloc, ask_calloc, no_malloc, malloced, no_calloc, calloced, Represents, Refined,
}
use linux_dynamic_memory_all.Alloc.Represented.{Holds-stays, added, far, ne_null, not_held}

module _ {K : Type 0} {break : K → Ptr} where
  module _ (a : Store) (s : State K) (v : Represents break a s) where
    pub malloc-Refined :
        (size p : ℕ) (s' : State K)
        → Malloced break size s v.bs p s'
        → Refined break a (ask_malloc size) p s'
    malloc-Refined size p s' (no_memory lists e err h same st) = rw e (record {
      after = a;
      change = no_malloc;
      represents = record {
        lists = lists;
        bs = v.bs;
        heap = h;
        holds =
            λ x b e. Holds-stays null x b s s' v.bs v.bs (v.holds x b e) same (ne_null a s v x b e);
      };
    })
    malloc-Refined size p s' (gave x lists bs at h hx ux rx fresh same st) =
        let d : ℕ → ℕ = λ i. s'.bytes (x + header_size + i) in
        rw at (record {
          after = update a x (some (record { len = size; data_at = d }));
          change = malloced x d (not_held a s v x fresh);
          represents =
              added a s' lists bs x (record { len = size; data_at = d }) h
                (record { mem = hx; used = ux; len = rx; same = λ i lt. refl })
                (λ y c ne e.
                  Holds-stays null y c s s' v.bs bs (v.holds y c e) same (ne_null a s v y c e));
        })

    -- The bytes of a new block become 0.
    pub calloc-Refined :
        (n p : ℕ) {nmemb size : ℕ} (s' t : State K)
        → n ≡ nmemb * size
        → Malloced break n s v.bs p t
        → s' ≡ (if p == null then t else record t { bytes = s'.bytes })
        → (p ≢ null → (i : ℕ) → i < n → s'.bytes (p + i) ≡ 0)
        → ((q : Ptr) → (p ≡ null) ⊎ ((q < p) ⊎ (p + n ≤ q)) → s'.bytes q ≡ s.bytes q)
        → Refined break a (ask_calloc nmemb size) p s'
    calloc-Refined n p s' t en (no_memory lists e err h same st) eq zeros others = rw e (record {
      after = a;
      change = no_calloc;
      represents =
          let q : s' ≡ t = eq ∙ (let z : (p == null) ≡ true = ground arith in rw z refl) in
          rw q (record {
            lists = lists;
            bs = v.bs;
            heap = h;
            holds = λ x b e.
                Holds-stays null x b s t v.bs v.bs (v.holds x b e) same (ne_null a s v x b e);
          });
    })
    calloc-Refined n p {nmemb} {size} s' t en (gave x lists bs at h hx ux rx fresh same st) eq zeros
          others =
        let d : ℕ → ℕ = λ i. s'.bytes (x + header_size + i) in
        let t' : State K = record t { bytes = s'.bytes } in
        let q : s' ≡ t' = eq ∙ (let z : (p == null) ≡ false = ground arith in rw z refl) in
        let z : p ≢ null = ground arith in
        rw at (record {
          after = update a x (some (record { len = nmemb * size; data_at = d }));
          change = calloced x d (not_held a s v x fresh) (λ i lt. rw (← at) (zeros z i (rw en lt)));
          represents =
              subst
                (Represents break (update a x (some (record { len = nmemb * size; data_at = d }))))
                (sym q)
                (added a t' lists bs x (record { len = nmemb * size; data_at = d })
                  (bytes-IsHeap s'.bytes h)
                  (record { mem = hx; used = ux; len = rx ∙ en; same = λ i lt. refl })
                  (λ y c ne e.
                    let hy = v.holds y c e in
                    let hy' = Holds-stays null y c s t v.bs bs hy same (ne_null a s v y c e) in
                    record {
                      mem = hy'.mem;
                      used = hy'.used;
                      len = hy'.len;
                      same = λ i lt.
                          let f =
                            far (break t.kernel) t lists bs x y i h hx ux hy'.mem hy'.used ne
                              (ground (arith, hy'.len)) in
                          others (y + header_size + i) (inr (ground arith)) ∙ hy.same i lt;
                    }));
        })
