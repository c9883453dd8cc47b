-- ===== src/Database/Order.antt =====
-- A query's order changes no rows.
use mathlib.Core.List.{Permᴰ}
use placement_assistant.Prelude.{ℕ, List, [], ◌∷◌, refl, Bool-cases, inl, inr, leb}
use placement_assistant.Database.Query.{insert_row, ascending}

module _ {A : Type 0} where
  same-Perm : (xs : List A) → Permᴰ xs xs
  same-Perm [] = Permᴰ.nil
  same-Perm (x ∷ xs) = Permᴰ.cons refl (same-Perm xs)

  insert_row-Perm : (column : A → ℕ) (x : A) (ys : List A) → Permᴰ (insert_row column x ys) (x ∷ ys)
  unfolding insert_row
  insert_row-Perm column x [] = same-Perm (x ∷ [])
  insert_row-Perm column x (y ∷ ys) = elim (Bool-cases (leb (column x) (column y))) [
    | inl before ↦ rw before (same-Perm (x ∷ y ∷ ys))
    | inr after ↦
        rw after
          (Permᴰ.trans (Permᴰ.cons refl (insert_row-Perm column x ys)) (Permᴰ.swap refl refl))
  ]

  pub ascending-Perm : (column : A → ℕ) (xs : List A) → Permᴰ (ascending column xs) xs
  unfolding ascending
  ascending-Perm column [] = Permᴰ.nil
  ascending-Perm column (x ∷ xs) =
      Permᴰ.trans (insert_row-Perm column x (ascending column xs))
        (Permᴰ.cons refl (ascending-Perm column xs))
