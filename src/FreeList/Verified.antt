-- ===== src/FreeList/Verified.antt =====
-- What `free_list_verify_integrity` of src/allocator/free_list.c has seen when it returns 0.
use mathlib.Core.Path.{subst}
use linux_dynamic_memory_all.Prelude.{
  ℕ, zero, suc, ◌+◌, ◌≡◌, ◌≢◌, ◌<◌, ◌≤◌, ◌⊎◌, inl, inr, Bool, true, false, List, [], ◌∷◌, arith,
  refl, sym,
}
use linux_dynamic_memory_all.Prelude.Tests.{◌==◌, Bool-cases, ==→eq}
use linux_dynamic_memory_all.Prelude.Lists.{All}
use linux_dynamic_memory_all.Memory.{
  Ptr, null, num_size_classes, overhead, alloc_magic_header, Header, State, Os, Cmd, Run, ok, abort,
  out_of_fuel, and_then,
}
use linux_dynamic_memory_all.Kernel.{IsOs}
use linux_dynamic_memory_all.FreeList.{
  free_list_verify_integrity, verify_from, verify_list, verify_block, footer_matches,
}

-- A check that returns leaves the state `s` as it is, and if it returns 0, then `Q` holds.
abbrev pub Sound {ℓ} : {K : Type 0} → State K → Type ℓ → Run K Bool → Type ℓ
Sound s Q (ok true t) = (t ≡ s) × Q
Sound s Q (ok false t) = (t ≡ s) × Unit
Sound s Q (abort e) = Unit
Sound s Q out_of_fuel = Unit

pub Sound-of :
    {K : Type 0} {Q : Type 0} (s : State K) (r : Run K Bool)
    → ((t : State K) → r ≡ ok true t → (t ≡ s) × Q)
    → ((t : State K) → r ≡ ok false t → t ≡ s)
    → Sound s Q r
Sound-of s (ok true t) f g = f t refl
Sound-of s (ok false t) f g = (g t refl, tt)
Sound-of s (abort e) f g = tt
Sound-of s out_of_fuel f g = tt

-- One check and then another.
pub and_then-Sound :
    {K : Type 0} (Q R : Type 0) (s : State K) (m : Run K Bool) (f : Bool → Cmd K Bool)
    → Sound s Q m
    → (Q → Sound s R (f true s))
    → Sound s R (f false s)
    → Sound s R (and_then m f)
and_then-Sound Q R s (ok true t) f (e, q) h g = subst (λ u. Sound s R (f true u)) (sym e) (h q)
and_then-Sound Q R s (ok false t) f (e, q) h g = subst (λ u. Sound s R (f false u)) (sym e) g
and_then-Sound Q R s (abort e) f q h g = tt
and_then-Sound Q R s out_of_fuel f q h g = tt

pub Sound-weaken :
    {K : Type 0} (Q R : Type 0) (s : State K) (r : Run K Bool) → Sound s Q r → (Q → R) → Sound s R r
Sound-weaken Q R s (ok true t) (e, q) f = (e, f q)
Sound-weaken Q R s (ok false t) (e, q) f = (e, tt)
Sound-weaken Q R s (abort e) q f = tt
Sound-weaken Q R s out_of_fuel q f = tt

pub Sound-found :
    {K : Type 0} (Q : Type 0) (s t : State K) (r : Run K Bool)
    → Sound s Q r
    → r ≡ ok true t
    → (t ≡ s) × Q
Sound-found Q s t r q e = subst (Sound s Q) e q

-- The blocks from `cur` along `next` to NULL.
abbrev pub Linked : (Ptr → Header) → Ptr → List Ptr → Type 0
Linked hdr cur [] = cur ≡ null
Linked hdr cur (x ∷ xs) = (cur ≡ x) × (x ≢ null) × Linked hdr (hdr x).next xs

-- What the checks on a block of the list `i` find.
pub record IsListed {K : Type 0} (top : Ptr) (s : State K) (i x : ℕ) : Type 0 where
  pub magic : (s.hdr x).magic_header ≡ alloc_magic_header
  pub free : (s.hdr x).is_free ≢ 0
  pub least : overhead ≤ (s.hdr x).block_size
  pub within : x + (s.hdr x).block_size ≤ top
  pub footer : footer_matches s x (s.hdr x).block_size ≡ true
  pub back :
      (((s.hdr x).prev ≡ null) × (s.heads i ≡ x))
      ⊎ (((s.hdr x).prev ≢ null) × ((s.hdr (s.hdr x).prev).next ≡ x))
  pub ahead : ((s.hdr x).next ≡ null) ⊎ ((s.hdr (s.hdr x).next).prev ≡ x)

-- The list `i` ends, and all its blocks are good.
pub record IsWalked {K : Type 0} (top : Ptr) (s : State K) (i cur : ℕ) : Type 0 where
  pub blocks : List Ptr
  pub linked : Linked s.hdr cur blocks
  pub good : All (IsListed top s i) blocks

module _ {K : Type 0} {os : Os K} {break : K → Ptr} (o : IsOs os break) (s : State K) where
  verify_block-Sound : (i x : ℕ) → Sound s (IsListed (break s.kernel) s i x) (verify_block os i x s)
  unfolding verify_block
  verify_block-Sound i x =
      Sound-of s (verify_block os i x s)
        (λ t e. (
          ground (arith, o.sbrk_zero s.kernel),
          record {
            magic = ground (arith, o.sbrk_zero s.kernel);
            free = ground (arith, o.sbrk_zero s.kernel);
            least = ground (arith, o.sbrk_zero s.kernel);
            within = ground (arith, o.sbrk_zero s.kernel);
            footer = ground (arith, o.sbrk_zero s.kernel);
            back = ground (arith, o.sbrk_zero s.kernel);
            ahead = ground (arith, o.sbrk_zero s.kernel);
          },
        ))
        (λ t e. ground (arith, o.sbrk_zero s.kernel))

  verify_list-Sound :
      (fuel i cur : ℕ) → Sound s (IsWalked (break s.kernel) s i cur) (verify_list os fuel i cur s)
  unfolding verify_list
  verify_list-Sound zero i cur = tt
  verify_list-Sound (suc fuel) i cur = elim (Bool-cases (cur == null)) [
    | inl e ↦ rw e (refl, record { blocks = []; linked = ground arith; good = tt })
    | inr e ↦ rw e (
        and_then-Sound (IsListed (break s.kernel) s i cur) (IsWalked (break s.kernel) s i cur) s
          (verify_block os i cur s) _ (verify_block-Sound i cur)
          (λ b.
            Sound-weaken (IsWalked (break s.kernel) s i (s.hdr cur).next)
              (IsWalked (break s.kernel) s i cur) s (verify_list os fuel i (s.hdr cur).next s)
              (verify_list-Sound fuel i (s.hdr cur).next)
              (λ w. record {
                blocks = cur ∷ w.blocks;
                linked = (refl, ground arith, w.linked);
                good = (b, w.good);
              }))
          (refl, tt))
  ]

  abbrev Walks : ℕ → ℕ → Type 0
  Walks rounds from =
      (i : ℕ) → from ≤ i → i < from + rounds → IsWalked (break s.kernel) s i (s.heads i)

  verify_from-Sound :
      (fuel rounds from : ℕ) → Sound s (Walks rounds from) (verify_from os fuel rounds from s)
  unfolding verify_from
  verify_from-Sound fuel zero from = (refl, λ i le lt. absurd (omega arith))
  verify_from-Sound fuel (suc rounds) from =
      and_then-Sound (IsWalked (break s.kernel) s from (s.heads from)) (Walks (suc rounds) from) s
        (verify_list os fuel from (s.heads from) s) _ (verify_list-Sound fuel from (s.heads from))
        (λ w.
          Sound-weaken (Walks rounds (from + 1)) (Walks (suc rounds) from) s
            (verify_from os fuel rounds (from + 1) s) (verify_from-Sound fuel rounds (from + 1))
            (λ ws i le lt. elim (Bool-cases (i == from)) [
              | inl e ↦ rw (==→eq i from e) w
              | inr e ↦ ws i (ground arith) (omega arith)
            ]))
        (refl, tt)

  pub free_list_verify_integrity-Sound :
      (fuel : ℕ)
      → Sound s
          ((i : ℕ) → i < num_size_classes → IsWalked (break s.kernel) s i (s.heads i))
          (free_list_verify_integrity os fuel s)
  unfolding free_list_verify_integrity
  free_list_verify_integrity-Sound fuel =
      Sound-weaken _ _ s (verify_from os fuel num_size_classes 0 s)
        (verify_from-Sound fuel num_size_classes 0) (λ ws i lt. ws i (omega arith) lt)
