-- ===== src/Evidence/Canonical/Numbers.antt =====
-- A number is read back from the digits that Evidence.Canonical writes of it.
use Prim.Native.Nat.{◌/◌, ◌%◌}
use placement_assistant.Prelude.{
  ℕ, zero, suc, ◌+◌, ◌-◌, ◌*◌, ◌<◌, ℤ, pos, negsuc, Bool, true, false, ◌&&◌, ◌||◌, List, [], ◌∷◌,
  ◌≡◌, refl, ap, sym, ◌∙◌, arith, ltb, leb, ◌==◌, if◌then◌else◌,
}
use placement_assistant.Evidence.Canonical.{digits, write_number}

abbrev pub is_digit : ℕ → Bool
is_digit c = leb 48 c && ltb c 58

-- Digits behind `n`, and what follows them.
read_digits : ℕ → List ℕ → ℕ × List ℕ
read_digits n [] = (n, [])
read_digits n (c ∷ rest) =
    let more = read_digits (n * 10 + (c - 48)) rest in if is_digit c then more else (n, c ∷ rest)

read_digits-digits :
    (fuel n : ℕ) (rest : List ℕ)
    → n < fuel
    → read_digits 0 (digits fuel n rest) ≡ read_digits n rest
unfolding read_digits digits
read_digits-digits zero n rest h = absurd (omega arith)
read_digits-digits (suc fuel) n rest h =
    ground (arith, read_digits-digits fuel (n / 10) ((48 + n % 10) ∷ rest))

read_digits-end :
    (n c : ℕ) (rest : List ℕ) → is_digit c ≡ false → read_digits n (c ∷ rest) ≡ (n, c ∷ rest)
unfolding read_digits
read_digits-end n c rest h = rw h refl

-- Digits begin with a digit.
digits-first :
    (fuel n c : ℕ) (rest tail : List ℕ)
    → n < fuel
    → digits fuel n rest ≡ c ∷ tail
    → is_digit c ≡ true
unfolding digits
digits-first zero n c rest tail h same = absurd (omega arith)
digits-first (suc fuel) n c rest tail h same =
    ground (arith, digits-first fuel (n / 10) c ((48 + n % 10) ∷ rest) tail)

digits-injective :
    (n m c d : ℕ) (r s : List ℕ)
    → is_digit c ≡ false
    → is_digit d ≡ false
    → digits (suc n) n (c ∷ r) ≡ digits (suc m) m (d ∷ s)
    → (n ≡ m) × (c ∷ r ≡ d ∷ s)
digits-injective n m c d r s ends stops h =
    let same =
      sym (read_digits-end n c r ends)
      ∙ sym (read_digits-digits (suc n) n (c ∷ r) (omega arith))
      ∙ ap (read_digits 0) h
      ∙ read_digits-digits (suc m) m (d ∷ s) (omega arith)
      ∙ read_digits-end m d s stops in
    (ap (λ p. p.0) same, ap (λ p. p.1) same)

-- A number begins with a digit or a minus.
pub write_number-first :
    (n : ℤ) (c : ℕ) (rest tail : List ℕ)
    → write_number n rest ≡ c ∷ tail
    → is_digit c || c == 45 ≡ true
unfolding write_number
write_number-first (pos n) c rest tail h =
    let first = digits-first (suc n) n c rest tail (omega arith) h in rw first refl
write_number-first (negsuc n) c rest tail h = let first : 45 ≡ c = cc h in rw (sym first) refl

pub write_number-injective :
    (n m : ℤ) (c d : ℕ) (r s : List ℕ)
    → is_digit c ≡ false
    → is_digit d ≡ false
    → write_number n (c ∷ r) ≡ write_number m (d ∷ s)
    → (n ≡ m) × (c ∷ r ≡ d ∷ s)
unfolding write_number
write_number-injective (pos n) (pos m) c d r s ends stops h =
    let (same, rest) = digits-injective n m c d r s ends stops h in (ap pos same, rest)
write_number-injective (negsuc n) (negsuc m) c d r s ends stops h =
    let (same, rest) = digits-injective (suc n) (suc m) c d r s ends stops (cc h) in
    (ap negsuc (cc same), rest)
write_number-injective (pos n) (negsuc m) c d r s ends stops h =
    absurd (cc (digits-first (suc n) n 45 (c ∷ r) _ (omega arith) h))
write_number-injective (negsuc n) (pos m) c d r s ends stops h =
    absurd (cc (digits-first (suc m) m 45 (d ∷ s) _ (omega arith) (sym h)))
