-- ===== src/Evidence/Canonical/Unique.antt =====
-- `canonical_bytes` of apps/api/app/rag/contracts.py writes two dictionaries alike only if they agree.
use mathlib.Core.List.{head-eq_of_cons-eq, tail-eq_of_cons-eq}
use placement_assistant.Prelude.{ℕ, ℤ, String, false, List, [], ◌∷◌, ◌≡◌, ◌≢◌, refl, ap, sym, arith}
use placement_assistant.Evidence.Canonical.{
  Json, null, number, text, write_text, write_number, write_value, write_member, write_members,
}
use placement_assistant.Evidence.Canonical.Texts.{write_text-injective}
use placement_assistant.Evidence.Canonical.Numbers.{
  is_digit, write_number-first, write_number-injective,
}

not_number-34 : (n : ℤ) (rest tail : List ℕ) → write_number n rest ≢ 34 ∷ tail
not_number-34 n rest tail h = cc (write_number-first n 34 rest tail h)

not_number-110 : (n : ℤ) (rest tail : List ℕ) → write_number n rest ≢ 110 ∷ tail
not_number-110 n rest tail h = cc (write_number-first n 110 rest tail h)

null-injective :
    (w : Json) (r s : List ℕ) → 110 ∷ 117 ∷ 108 ∷ 108 ∷ r ≡ write_value w s → (null ≡ w) × (r ≡ s)
unfolding write_value
null-injective null r s h =
    (refl, tail-eq_of_cons-eq (tail-eq_of_cons-eq (tail-eq_of_cons-eq (tail-eq_of_cons-eq h))))
null-injective (number m) r s h = absurd (not_number-110 m s _ (sym h))
null-injective (text u) r s h = absurd (omega (arith, head-eq_of_cons-eq h))

text-injective :
    (t : String) (w : Json) (r s : List ℕ)
    → 34 ∷ write_text t r ≡ write_value w s
    → (text t ≡ w) × (r ≡ s)
unfolding write_value
text-injective t null r s h = absurd (omega (arith, head-eq_of_cons-eq h))
text-injective t (number m) r s h = absurd (not_number-34 m s _ (sym h))
text-injective t (text u) r s h =
    let (same, rest) = write_text-injective t u r s (tail-eq_of_cons-eq h) in (ap text same, rest)

number-injective :
    (n : ℤ) (w : Json) (c d : ℕ) (r s : List ℕ)
    → is_digit c ≡ false
    → is_digit d ≡ false
    → write_number n (c ∷ r) ≡ write_value w (d ∷ s)
    → (number n ≡ w) × (c ∷ r ≡ d ∷ s)
unfolding write_value
number-injective n null c d r s ends stops h = absurd (not_number-110 n (c ∷ r) _ h)
number-injective n (text u) c d r s ends stops h = absurd (not_number-34 n (c ∷ r) _ h)
number-injective n (number m) c d r s ends stops h =
    let (same, rest) = write_number-injective n m c d r s ends stops h in (ap number same, rest)

write_value-injective :
    (v w : Json) (c d : ℕ) (r s : List ℕ)
    → is_digit c ≡ false
    → is_digit d ≡ false
    → write_value v (c ∷ r) ≡ write_value w (d ∷ s)
    → (v ≡ w) × (c ∷ r ≡ d ∷ s)
unfolding write_value
write_value-injective null w c d r s ends stops h = null-injective w (c ∷ r) (d ∷ s) h
write_value-injective (text t) w c d r s ends stops h = text-injective t w (c ∷ r) (d ∷ s) h
write_value-injective (number n) w c d r s ends stops h = number-injective n w c d r s ends stops h

write_member-injective :
    (j k : String) (v w : Json) (c d : ℕ) (r s : List ℕ)
    → is_digit c ≡ false
    → is_digit d ≡ false
    → write_member j v (c ∷ r) ≡ write_member k w (d ∷ s)
    → ◌≡◌ {A = String × Json} (j, v) (k, w) × (c ∷ r ≡ d ∷ s)
write_member-injective j k v w c d r s ends stops h =
    let (key, later) =
      write_text-injective j k (58 ∷ write_value v (c ∷ r)) (58 ∷ write_value w (d ∷ s)) (cc h) in
    let (value, rest) = write_value-injective v w c d r s ends stops (cc later) in
    ((λ i. (key i, value i)), rest)

-- Two dictionaries are written alike only if they have the same members, in the same order.
pub write_members-injective :
    (ms ns : List (String × Json)) → write_members ms ≡ write_members ns → ms ≡ ns
unfolding write_members
write_members-injective [] [] h = refl
write_members-injective ((j, v) ∷ []) ((k, w) ∷ []) h =
    ap (λ m. m ∷ []) (write_member-injective j k v w 125 125 [] [] refl refl h).0
write_members-injective ((j, v) ∷ m ∷ ms) ((k, w) ∷ n ∷ ns) h =
    let (first, rest) = write_member-injective j k v w 44 44 _ _ refl refl h in
    let later = write_members-injective (m ∷ ms) (n ∷ ns) (tail-eq_of_cons-eq rest) in
    (λ i. first i ∷ later i)
write_members-injective ((j, v) ∷ []) ((k, w) ∷ n ∷ ns) h =
    absurd
      (omega (arith, head-eq_of_cons-eq (write_member-injective j k v w 125 44 [] _ refl refl h).1))
write_members-injective ((j, v) ∷ m ∷ ms) ((k, w) ∷ []) h =
    absurd
      (omega (arith, head-eq_of_cons-eq (write_member-injective j k v w 44 125 _ [] refl refl h).1))
write_members-injective [] ((k, w) ∷ []) h = absurd (omega (arith, head-eq_of_cons-eq h))
write_members-injective [] ((k, w) ∷ n ∷ ns) h = absurd (omega (arith, head-eq_of_cons-eq h))
write_members-injective ((j, v) ∷ []) [] h = absurd (omega (arith, head-eq_of_cons-eq h))
write_members-injective ((j, v) ∷ m ∷ ms) [] h = absurd (omega (arith, head-eq_of_cons-eq h))
