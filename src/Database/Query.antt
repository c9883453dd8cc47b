-- ===== src/Database/Query.antt =====
-- How SQLAlchemy hands over a result, and the columns that a query sorts by.
use placement_assistant.Prelude.{
  ℕ, Option, none, some, List, [], ◌∷◌, Result, ok, err, multiple_results, ltb, leb, if◌then◌else◌,
  ◌≡◌,
}

module _ {A : Type 0} where
  -- `scalar_one_or_none()` on the rows that a query returns
  unfoldable pub one_or_none : List A → Result (Option A)
  one_or_none [] = ok none
  one_or_none (x ∷ []) = ok (some x)
  one_or_none (x ∷ y ∷ xs) = err multiple_results

  -- `order_by(column.desc()).limit(1)`: the first row with the greatest value.
  unfoldable pub greatest : (A → ℕ) → List A → Option A
  greatest column [] = none
  greatest column (x ∷ xs) =
      let rest = greatest column xs in
      elim rest [ none ↦ some x | some y ↦ if ltb (column x) (column y) then some y else some x ]

  unfoldable pub insert_row : (A → ℕ) → A → List A → List A
  insert_row column x [] = x ∷ []
  insert_row column x (y ∷ ys) =
      let rest = insert_row column x ys in
      if leb (column x) (column y) then x ∷ y ∷ ys else y ∷ rest

  -- `order_by(column.asc())`: rows with one value keep their order.
  unfoldable pub ascending : (A → ℕ) → List A → List A
  unfolding insert_row
  ascending column [] = []
  ascending column (x ∷ xs) = insert_row column x (ascending column xs)

-- `order_by(column.desc())`; the database chooses the order of rows with one value.
module _ {A : Type 0} where
  insert_descending : (A → ℕ) → A → List A → List A
  insert_descending column x [] = x ∷ []
  insert_descending column x (y ∷ ys) =
      let rest = insert_descending column x ys in
      if leb (column y) (column x) then x ∷ y ∷ ys else y ∷ rest

  unfoldable pub descending : (A → ℕ) → List A → List A
  unfolding insert_descending
  descending column [] = []
  descending column (x ∷ xs) = insert_descending column x (descending column xs)

-- the value of the column in that row, `or 0`
abbrev pub column_or_zero : {A : Type 0} → (A → ℕ) → Option A → ℕ
column_or_zero column none = 0
column_or_zero column (some x) = column x

pub one_or_none-some :
    {A : Type 0} (xs : List A) (x : A) → one_or_none xs ≡ ok (some x) → xs ≡ x ∷ []
unfolding one_or_none
one_or_none-some [] x h = cc
one_or_none-some (y ∷ []) x h = cc
one_or_none-some (y ∷ z ∷ xs) x h = cc
