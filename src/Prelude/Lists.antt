-- ===== src/Prelude/Lists.antt =====
-- Lists of addresses: length, membership as a test, and predicates on all members.
use Prim.Native.Nat.{ℕ, zero, suc}
use mathlib.Core.Path.{◌≡◌, refl}
use mathlib.Core.Logic.{inl, inr}
use mathlib.Core.Bool.{Bool, true, false, ◌||◌}
use mathlib.Core.List.{List, [], ◌∷◌}
use mathlib.Core.Option.{Option, none, some}
use native.Mathlib.Omega.{arith}
use linux_dynamic_memory_all.Prelude.Tests.{◌==◌, ==→eq, Bool-cases, if◌then◌else◌}

module _ {ℓ} {A : Type ℓ} where
  abbrev pub length : List A → ℕ
  length [] = 0
  length (_ ∷ xs) = suc (length xs)

  abbrev pub get_elem? : List A → ℕ → Option A
  get_elem? [] i = none
  get_elem? (x ∷ xs) zero = some x
  get_elem? (x ∷ xs) (suc i) = get_elem? xs i

-- `P` holds of every member.
abbrev pub All {ℓ κ} : {A : Type ℓ} → (A → Type κ) → List A → Type κ
All P [] = Unit
All P (x ∷ xs) = P x × All P xs

abbrev pub has : ℕ → List ℕ → Bool
has a [] = false
has a (x ∷ xs) = (a == x) || has a xs

pub All-has {κ} : (P : ℕ → Type κ) (a : ℕ) (xs : List ℕ) → All P xs → has a xs ≡ true → P a
All-has P a [] ps h = absurd (ground arith)
All-has P a (x ∷ xs) (p, ps) h = elim (Bool-cases (a == x)) [
  | inl e ↦ rw (==→eq a x e) p
  | inr e ↦ All-has P a xs ps (ground arith)
]

-- The list without the first `x`.
abbrev pub erase : ℕ → List ℕ → List ℕ
erase x [] = []
erase x (y ∷ ys) = if x == y then ys else y ∷ erase x ys

pub not-has-erase : (a x : ℕ) (ys : List ℕ) → has a ys ≡ false → has a (erase x ys) ≡ false
not-has-erase a x [] h = h
not-has-erase a x (y ∷ ys) h = ground (arith, not-has-erase a x ys)

pub All-erase {κ} : (P : ℕ → Type κ) (x : ℕ) (ys : List ℕ) → All P ys → All P (erase x ys)
All-erase P x [] ps = ps
All-erase P x (y ∷ ys) (p, ps) = elim (Bool-cases (x == y)) [
  | inl e ↦ rw e ps
  | inr e ↦ rw e (p, All-erase P x ys ps)
]

pub All-map {κ μ} :
    (P : ℕ → Type κ) (Q : ℕ → Type μ) (xs : List ℕ)
    → ((a : ℕ) → has a xs ≡ true → P a → Q a)
    → All P xs
    → All Q xs
All-map P Q [] f ps = tt
All-map P Q (x ∷ xs) f (p, ps) =
    (f x (ground arith) p, All-map P Q xs (λ a h. f a (ground arith)) ps)

-- Other members stay.
pub has-erase_ne : (a x : ℕ) (ys : List ℕ) → (a == x) ≡ false → has a (erase x ys) ≡ has a ys
has-erase_ne a x [] ne = refl
has-erase_ne a x (y ∷ ys) ne = ground (arith, has-erase_ne a x ys)

pub ne_of_has : (a b : ℕ) (xs : List ℕ) → has a xs ≡ true → has b xs ≡ false → (a == b) ≡ false
ne_of_has a b [] h k = absurd (ground arith)
ne_of_has a b (x ∷ xs) h k = ground (arith, ne_of_has a b xs)
