-- ===== src/Prelude/Keys.antt =====
-- Tables whose rows have ids, and what a change leaves of their constraints.
use Prim.Native.Nat.{ℕ, ◌≤◌}
use mathlib.Core.Path.{◌≡◌, refl}
use mathlib.Core.Logic.{inl, inr}
use mathlib.Core.Bool.{Bool, true, false}
use mathlib.Core.Option.{some}
use mathlib.Core.List.{List, [], ◌∷◌, ◌++◌}
use native.Mathlib.Omega.{arith}
use placement_assistant.Prelude.Tests.{Bool-cases, ==_iff, ◌==◌}
use placement_assistant.Prelude.Lists.{
  find, All, Has, keep, replace, any, length, Has-map, Has-keep, only_row, keep-Has, All-keep,
  keep-append, keep-none, length-append,
}

pub All-zip :
    {A : Type 0} (P Q R : A → Type 0) (xs : List A)
    → ((x : A) → P x → Q x → R x)
    → All P xs
    → All Q xs
    → All R xs
All-zip P Q R [] h ps qs = tt
All-zip P Q R (x ∷ xs) h ps qs = (h x ps.0 qs.0, All-zip P Q R xs h ps.1 qs.1)

-- What holds of each row, changed or not, holds of the table after the change.
pub All-replaced :
    {A : Type 0} (P Q : A → Type 0) (p : A → Bool) (f : A → A) (xs : List A)
    → ((x : A) → P x → p x ≡ true → Q (f x))
    → ((x : A) → P x → p x ≡ false → Q x)
    → All P xs
    → All Q (replace p f xs)
unfolding replace
All-replaced P Q p f [] changed stays all = tt
All-replaced P Q p f (x ∷ xs) changed stays all =
    let rest = All-replaced P Q p f xs changed stays all.1 in
    elim (Bool-cases (p x)) [
      | inl passes ↦ rw passes (changed x all.0 passes, rest)
      | inr fails ↦ rw fails (stays x all.0 fails, rest)
    ]

-- Where an id has one row, the row that a query returned is the only one with its id.
pub unique_row :
    {A : Type 0} (id_of : A → ℕ) (q : A → Bool) (xs : List A) (a : A)
    → ((id : ℕ) → length (keep (λ x. id_of x == id) xs) ≤ 1)
    → keep q xs ≡ a ∷ []
    → All (λ x. (id_of x == id_of a) ≡ true → x ≡ a) xs
unique_row {A = A} id_of q xs a key kept =
    let here = λ (x : A). id_of x == id_of a in
    let there : Has (λ x. x ≡ a) (keep q xs) = rw kept (inl refl) in
    let member : Has (λ x. x ≡ a) xs =
      Has-map (λ x. (x ≡ a) × (q x ≡ true)) (λ x. x ≡ a) (λ x both. both.0) xs
        (Has-keep (λ x. x ≡ a) q xs there) in
    let only =
      only_row a (keep here xs) (key (id_of a))
        (keep-Has here a xs ((==_iff (id_of a) (id_of a)).1 refl) member) in
    All-keep (λ x. x ≡ a) here xs only

-- A row that is added to those that a filter keeps.
pub length-keep-added :
    {A : Type 0} (q : A → Bool) (xs : List A) (a : A)
    → (q a ≡ true → any q xs ≡ false)
    → length (keep q xs) ≤ 1
    → length (keep q (xs ++ a ∷ [])) ≤ 1
unfolding keep
length-keep-added q xs a unused one = elim (Bool-cases (q a)) [
  | inl mine ↦ rw (keep-append, mine, keep-none q xs (unused mine)) (omega arith)
  | inr other ↦ rw (keep-append, other, length-append) (omega (arith, one))
]

-- No row passes a test that needs one of two tests which none passes.
pub any-neither :
    {A : Type 0} (q p r : A → Bool) (xs : List A)
    → ((x : A) → p x ≡ false → r x ≡ false → q x ≡ false)
    → any p xs ≡ false
    → any r xs ≡ false
    → any q xs ≡ false
unfolding any
any-neither q p r [] h none_p none_r = refl
any-neither q p r (x ∷ xs) h none_p none_r = ground (arith, h x, any-neither q p r xs h)

pub any-All :
    {A : Type 0} (p : A → Bool) (xs : List A) → any p xs ≡ false → All (λ x. p x ≡ false) xs
unfolding any
any-All p [] h = tt
any-All p (x ∷ xs) h = ground (arith, any-All p xs)

pub find-Has :
    {A : Type 0} (p : A → Bool) (xs : List A) (x : A) → find p xs ≡ some x → Has (λ y. y ≡ x) xs
unfolding find
find-Has p [] x h = cc
find-Has p (y ∷ xs) x h = elim (Bool-cases (p y)) [
  | inl passes ↦ inl (cc (rw passes at h))
  | inr fails ↦ inr (find-Has p xs x (rw fails at h))
]

-- A row that is changed is there afterwards.
pub Has-replace :
    {A : Type 0} (p : A → Bool) (f : A → A) (a : A) (xs : List A)
    → p a ≡ true
    → Has (λ x. x ≡ a) xs
    → Has (λ x. x ≡ f a) (replace p f xs)
unfolding replace
Has-replace p f a [] passes there = absurd there
Has-replace p f a (x ∷ xs) passes (inl same) = rw (same, passes) (inl refl)
Has-replace p f a (x ∷ xs) passes (inr there) = inr (Has-replace p f a xs passes there)
