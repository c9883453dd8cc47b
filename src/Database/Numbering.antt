-- ===== src/Database/Numbering.antt =====
-- Rows that are numbered 1, 2, 3 and so on, in their order.
use placement_assistant.Prelude.{ℕ, suc, ◌+◌, ◌≡◌, refl, List, [], ◌∷◌, ◌++◌, length, arith}
use placement_assistant.Database.Query.{greatest, column_or_zero}

module _ {A : Type 0} (number : A → ℕ) where
  -- The rows carry k, k + 1, k + 2 and so on.
  abbrev pub CountsFrom : ℕ → List A → Type 0
  CountsFrom k [] = Unit
  CountsFrom k (m ∷ ms) = (number m ≡ k) × CountsFrom (suc k) ms

  pub CountsFrom-append :
      (k : ℕ) (ms : List A) (m : A)
      → CountsFrom k ms
      → number m ≡ k + length ms
      → CountsFrom k (ms ++ m ∷ [])
  CountsFrom-append k [] m h e = (omega arith, tt)
  CountsFrom-append k (x ∷ ms) m h e = (h.0, CountsFrom-append (suc k) ms m h.1 (omega arith))

  greatest-CountsFrom :
      (k : ℕ) (m : A) (ms : List A)
      → CountsFrom k (m ∷ ms)
      → column_or_zero number (greatest number (m ∷ ms)) ≡ k + length ms
  unfolding greatest
  greatest-CountsFrom k m [] h = omega arith
  greatest-CountsFrom k m (x ∷ ms) h = ground (arith, greatest-CountsFrom (suc k) x ms h.1)

  pub last_number :
      (ms : List A) → CountsFrom 1 ms → column_or_zero number (greatest number ms) ≡ length ms
  unfolding greatest
  last_number [] h = refl
  last_number (m ∷ ms) h = omega (arith, greatest-CountsFrom 1 m ms h)
