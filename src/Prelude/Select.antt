-- ===== src/Prelude/Select.antt =====
-- What a query takes of a table, row by row.
use mathlib.Core.Path.{◌≡◌, refl}
use mathlib.Core.Logic.{inl, inr}
use mathlib.Core.Bool.{Bool, true, false}
use mathlib.Core.List.{List, [], ◌∷◌, map}
use placement_assistant.Prelude.Tests.{Bool-cases}
use placement_assistant.Prelude.Lists.{keep}

-- `ys` has, in the table's order, exactly the rows with `P`, each in the form that `R` says.
pub data Selects {A B : Type 0} (P : A → Type 0) (R : A → B → Type 0)
    : List A → List B → Type 0 where
  select_none : Selects P R [] []
  select_row :
      {x : A} {y : B} {xs : List A} {ys : List B}
      → P x
      → R x y
      → Selects P R xs ys
      → Selects P R (x ∷ xs) (y ∷ ys)
  skip_row :
      {x : A} {xs : List A} {ys : List B} → ¬ (P x) → Selects P R xs ys → Selects P R (x ∷ xs) ys

pub map-keep-Selects :
    {A B : Type 0} (P : A → Type 0) (R : A → B → Type 0) (q : A → Bool) (f : A → B)
    → ((x : A) → q x ≡ true → P x)
    → ((x : A) → q x ≡ false → ¬ (P x))
    → ((x : A) → R x (f x))
    → (xs : List A) → Selects P R xs (map f (keep q xs))
unfolding keep
map-keep-Selects P R q f passes_P fails_P form [] = select_none
map-keep-Selects P R q f passes_P fails_P form (x ∷ xs) = elim (Bool-cases (q x)) [
  | inl passes ↦
      rw passes (
        select_row (passes_P x passes) (form x) (map-keep-Selects P R q f passes_P fails_P form xs))
  | inr fails ↦
      rw fails (skip_row (fails_P x fails) (map-keep-Selects P R q f passes_P fails_P form xs))
]

pub keep-Selects :
    {A : Type 0} (P : A → Type 0) (q : A → Bool)
    → ((x : A) → q x ≡ true → P x)
    → ((x : A) → q x ≡ false → ¬ (P x))
    → (xs : List A) → Selects P (λ x y. y ≡ x) xs (keep q xs)
unfolding keep
keep-Selects P q passes_P fails_P [] = select_none
keep-Selects P q passes_P fails_P (x ∷ xs) = elim (Bool-cases (q x)) [
  | inl passes ↦
      rw passes (select_row (passes_P x passes) refl (keep-Selects P q passes_P fails_P xs))
  | inr fails ↦ rw fails (skip_row (fails_P x fails) (keep-Selects P q passes_P fails_P xs))
]

-- Two lists of one length, row by row.
abbrev pub Pairs : {A B : Type 0} → (A → B → Type 0) → List A → List B → Type 0
Pairs R [] [] = Unit
Pairs R [] (y ∷ ys) = ⊥
Pairs R (x ∷ xs) [] = ⊥
Pairs R (x ∷ xs) (y ∷ ys) = R x y × Pairs R xs ys
