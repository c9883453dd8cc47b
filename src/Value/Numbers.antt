-- ===== src/Value/Numbers.antt =====
-- Python compares numbers of every type by their exact values.
use placement_assistant.Prelude.{
  ℕ, suc, ◌*◌, ◌+◌, ◌≡◌, refl, Option, none, some, ℤ, arith, pos_part, neg_part,
}
use placement_assistant.Value.{
  Value, null, bool, int, float, str, list, dict, number, number_order, number_order?, same_number,
  same_rank, eq, order,
}
use placement_assistant.Value.Text.{Rank, less, same, more, rank}

abbrev pub flip : Rank → Rank
flip less = more
flip same = same
flip more = less

rank-flip : (a b : ℕ) → rank b a ≡ flip (rank a b)
unfolding rank
rank-flip a b = ground arith

pub number_order-flip : (p q : ℤ × ℕ) → number_order q p ≡ flip (number_order p q)
unfolding number_order
number_order-flip (a, b) (c, d) =
    rank-flip (pos_part a * suc d + neg_part c * suc b) (pos_part c * suc b + neg_part a * suc d)

module _ {p q : ℤ × ℕ} where
  both_numbers :
      (m n : Option (ℤ × ℕ))
      → m ≡ some p
      → n ≡ some q
      → (number_order? m n ≡ some (number_order p q))
        × (same_number m n ≡ same_rank (number_order p q))
  unfolding number_order? same_number number_order
  both_numbers none n h k = cc
  both_numbers (some m) none h k = cc
  both_numbers (some m) (some n) h k =
      let e : m ≡ p = cc in let e' : n ≡ q = cc in rw (e, e') (refl, refl)

  -- Of two numbers, the order and the equality are those of their exact values.
  pub number_laws :
      (v w : Value)
      → number v ≡ some p
      → number w ≡ some q
      → (order v w ≡ some (number_order p q)) × (eq v w ≡ same_rank (number_order p q))
  unfolding order eq
  number_laws null w h k = cc
  number_laws (bool b) w h k = both_numbers (number (bool b)) (number w) h k
  number_laws (int n) w h k = both_numbers (number (int n)) (number w) h k
  number_laws (float n d) w h k = both_numbers (number (float n d)) (number w) h k
  number_laws (str s) w h k = cc
  number_laws (list xs) w h k = cc
  number_laws (dict fs) w h k = cc
