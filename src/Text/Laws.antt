-- ===== src/Text/Laws.antt =====
-- Lemmas on C strings.
use linux_dynamic_memory_all.Prelude.{
  ℕ, zero, suc, ◌+◌, ◌≡◌, refl, ap, true, [], ◌∷◌, ◌++◌, arith, ◌≤◌,
}
use linux_dynamic_memory_all.Prelude.Tests.{==→eq}
use linux_dynamic_memory_all.Prelude.Lists.{length}
use linux_dynamic_memory_all.Text.{Text, same, starts, take, drop}

pub same→eq : (s t : Text) → same s t ≡ true → s ≡ t
same→eq [] [] e = refl
same→eq [] (y ∷ t) e = absurd (ground arith)
same→eq (x ∷ s) [] e = absurd (ground arith)
same→eq (x ∷ s) (y ∷ t) e =
    let ih = same→eq s t (ground arith) in let h = ==→eq x y (ground arith) in cc

pub same_refl : (s : Text) → same s s ≡ true
same_refl [] = refl
same_refl (x ∷ s) = ground (arith, same_refl s)

pub starts-append : (s t : Text) → starts s (s ++ t) ≡ true
starts-append [] t = refl
starts-append (x ∷ s) t = ground (arith, starts-append s t)

pub take-append : (s t : Text) → take (length s) (s ++ t) ≡ s
take-append [] t = refl
take-append (x ∷ s) t = ap (λ (r : Text). x ∷ r) (take-append s t)

pub drop-append : (s t : Text) → drop (length s) (s ++ t) ≡ t
drop-append [] t = refl
drop-append (x ∷ s) t = drop-append s t

pub take_all : (n : ℕ) (s : Text) → length s ≤ n → take n s ≡ s
take_all zero [] le = refl
take_all zero (x ∷ s) le = absurd (ground arith)
take_all (suc n) [] le = refl
take_all (suc n) (x ∷ s) le = ap (λ (r : Text). x ∷ r) (take_all n s (ground arith))

pub append_assoc : (s t u : Text) → (s ++ t) ++ u ≡ s ++ (t ++ u)
append_assoc [] t u = refl
append_assoc (x ∷ s) t u = ap (λ (v : Text). x ∷ v) (append_assoc s t u)

pub append_nil : (s : Text) → s ++ [] ≡ s
append_nil [] = refl
append_nil (x ∷ s) = ap (λ (v : Text). x ∷ v) (append_nil s)

pub length-append : (s t : Text) → length (s ++ t) ≡ length s + length t
length-append [] t = omega arith
length-append (x ∷ s) t = omega (arith, length-append s t)
