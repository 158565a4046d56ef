-- ===== src/Web/SendLaws.antt =====
-- What a client of src/monitor/gui_server.c receives by `send_all` and `send_response`.
use linux_dynamic_memory_all.Prelude.{
  ℕ, zero, suc, ◌+◌, ◌≡◌, ◌≤◌, ◌<◌, refl, ap, ◌∙◌, Bool, true, false, not, ◌&&◌, List, [], ◌∷◌,
  ◌++◌, arith, inl, inr,
}
use linux_dynamic_memory_all.Prelude.Tests.{◌==◌, Bool-cases}
use linux_dynamic_memory_all.Prelude.Lists.{length}
use linux_dynamic_memory_all.Text.{Text, take, drop}
use linux_dynamic_memory_all.Text.Laws.{append_assoc}
use linux_dynamic_memory_all.Web.Send.{Sending, taken, again, broken, Delivery, send_all}

-- All has been sent, or something is left.
pub data Delivered (t : Text) (d : Delivery) : Type 0 where
  whole : d.done ≡ true → d.bytes ≡ t → Delivered t d
  cut : (u : Text) → d.done ≡ false → 0 < length u → d.bytes ++ u ≡ t → Delivered t d

take-drop : (n : ℕ) (t : Text) → take n t ++ drop n t ≡ t
take-drop zero t = refl
take-drop (suc n) [] = refl
take-drop (suc n) (x ∷ t) = ap (λ (u : Text). x ∷ u) (take-drop n t)

sent_part :
    (n : ℕ) (t : Text) (d : Delivery)
    → Delivered (drop n t) d
    → Delivered t (record { done = d.done; bytes = take n t ++ d.bytes; left = d.left })
sent_part n t d (whole e b) = whole e (ap (λ (u : Text). take n t ++ u) b ∙ take-drop n t)
sent_part n t d (cut u e pos b) =
    cut u e pos
      (append_assoc (take n t) d.bytes u ∙ ap (λ (v : Text). take n t ++ v) b ∙ take-drop n t)

--
pub send_all-Delivered : (rs : List Sending) (t : Text) → Delivered t (send_all rs t)
unfolding send_all
send_all-Delivered rs [] = whole refl refl
send_all-Delivered [] (c ∷ t) = cut (c ∷ t) refl (ground arith) refl
send_all-Delivered (again ∷ rs) (c ∷ t) = send_all-Delivered rs (c ∷ t)
send_all-Delivered (broken ∷ rs) (c ∷ t) = cut (c ∷ t) refl (ground arith) refl
send_all-Delivered (taken n ∷ rs) (c ∷ t) = elim (Bool-cases (n == 0)) [
  | inl e ↦ rw e (cut (c ∷ t) refl (ground arith) refl)
  | inr e ↦
      rw e (
        sent_part n (c ∷ t) (send_all rs (drop n (c ∷ t))) (send_all-Delivered rs (drop n (c ∷ t))))
]

-- No call fails.
abbrev pub is_reliable : List Sending → Bool
is_reliable [] = true
is_reliable (taken n ∷ rs) = not (n == 0) && is_reliable rs
is_reliable (again ∷ rs) = is_reliable rs
is_reliable (broken ∷ rs) = false

-- The calls that take something.
abbrev pub count_taken : List Sending → ℕ
count_taken [] = 0
count_taken (taken n ∷ rs) = 1 + count_taken rs
count_taken (again ∷ rs) = count_taken rs
count_taken (broken ∷ rs) = count_taken rs

length-drop_suc : (n : ℕ) (t : Text) → length (drop n t) ≤ length t
length-drop_suc zero t = omega arith
length-drop_suc (suc n) [] = omega arith
length-drop_suc (suc n) (x ∷ t) = omega (arith, length-drop_suc n t)

drop_less : (n c : ℕ) (t : Text) → (n == 0) ≡ false → length (drop n (c ∷ t)) < length (c ∷ t)
drop_less zero c t e = absurd (ground arith)
drop_less (suc n) c t e = omega (arith, length-drop_suc n t)

pub send_all-reliable :
    (rs : List Sending) (t : Text)
    → is_reliable rs ≡ true
    → length t ≤ count_taken rs
    → ((send_all rs t).done ≡ true)
      × ((send_all rs t).bytes ≡ t)
      × (is_reliable (send_all rs t).left ≡ true)
      × (count_taken rs ≤ count_taken (send_all rs t).left + length t)
unfolding send_all
send_all-reliable rs [] r le = (refl, refl, r, omega arith)
send_all-reliable [] (c ∷ t) r le = absurd (omega arith)
send_all-reliable (again ∷ rs) (c ∷ t) r le = send_all-reliable rs (c ∷ t) r le
send_all-reliable (broken ∷ rs) (c ∷ t) r le = absurd (ground arith)
send_all-reliable (taken n ∷ rs) (c ∷ t) r le =
    let e : (n == 0) ≡ false = ground arith in
    let l = drop_less n c t e in
    let (d, b, r', k) = send_all-reliable rs (drop n (c ∷ t)) (ground arith) (omega arith) in
    rw e (d, ap (λ (u : Text). take n (c ∷ t) ++ u) b ∙ take-drop n (c ∷ t), r', omega arith)
