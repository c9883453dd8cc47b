-- ===== src/Prelude/Lists.antt =====
-- Lists measured by native numbers, Boolean filters over rows, and predicates by recursion.
use Prim.Native.Nat.{ℕ, suc, ◌+◌, ◌≤◌}
use mathlib.Core.Path.{◌≡◌, refl, ap}
use mathlib.Core.Logic.{◌⊎◌, inl, inr}
use mathlib.Core.Bool.{Bool, true, false, ◌||◌}
use mathlib.Core.Option.{Option, none, some}
use mathlib.Core.List.{List, [], ◌∷◌, ◌++◌, map}
use native.Mathlib.Omega.{arith}
use placement_assistant.Prelude.Tests.{if◌then◌else◌}

-- Every element satisfies `P`; some element does.
abbrev pub All {ℓ κ} : {A : Type ℓ} → (A → Type κ) → List A → Type κ
All P [] = Unit
All P (x ∷ xs) = P x × All P xs

abbrev pub Has {ℓ} : {A : Type ℓ} → (A → Type 0) → List A → Type 0
Has P [] = ⊥
Has P (x ∷ xs) = P x ⊎ Has P xs

module _ {ℓ} {A : Type ℓ} where
  abbrev pub length : List A → ℕ
  length [] = 0
  length (x ∷ xs) = suc (length xs)

  -- The rows of a table that a query's `where` clauses keep.
  unfoldable pub keep : (A → Bool) → List A → List A
  keep p [] = []
  keep p (x ∷ xs) = let rest = keep p xs in if p x then x ∷ rest else rest

  -- The first row that passes, for a key that at most one row has.
  unfoldable pub find : (A → Bool) → List A → Option A
  find p [] = none
  find p (x ∷ xs) = let rest = find p xs in if p x then some x else rest

  -- Every row that passes is rewritten.
  unfoldable pub replace : (A → Bool) → (A → A) → List A → List A
  replace p f [] = []
  replace p f (x ∷ xs) = (if p x then f x else x) ∷ replace p f xs

  -- Some row passes.
  unfoldable pub any : (A → Bool) → List A → Bool
  any p [] = false
  any p (x ∷ xs) = p x || any p xs

  unfoldable pub last : List A → Option A
  last [] = none
  last (x ∷ xs) = let rest = last xs in elim rest [ none ↦ some x | some y ↦ some y ]

module _ {ℓ} {A : Type ℓ} where
  pub length-append : (xs ys : List A) → length (xs ++ ys) ≡ length xs + length ys
  length-append [] ys = omega arith
  length-append (x ∷ xs) ys = omega (arith, length-append xs ys)

  pub length-replace :
      (p : A → Bool) (f : A → A) (xs : List A) → length (replace p f xs) ≡ length xs
  unfolding replace
  length-replace p f [] = refl
  length-replace p f (x ∷ xs) = ap suc (length-replace p f xs)

  pub keep-append : (p : A → Bool) (xs ys : List A) → keep p (xs ++ ys) ≡ keep p xs ++ keep p ys
  unfolding keep
  keep-append p [] ys = refl
  keep-append p (x ∷ xs) ys = ground (arith, keep-append p xs ys)

  pub keep-passes : (p : A → Bool) (xs : List A) → All (λ x. p x ≡ true) (keep p xs)
  unfolding keep
  keep-passes p [] = tt
  keep-passes p (x ∷ xs) = ground (arith, keep-passes p xs)

  -- A narrower filter after a wider one.
  pub keep-keep :
      (p q : A → Bool)
      → ((x : A) → q x ≡ true → p x ≡ true)
      → (xs : List A) → keep q (keep p xs) ≡ keep q xs
  unfolding keep
  keep-keep p q narrower [] = refl
  keep-keep p q narrower (x ∷ xs) = ground (arith, narrower x, keep-keep p q narrower xs)

  pub find-passes : (p : A → Bool) (xs : List A) (x : A) → find p xs ≡ some x → p x ≡ true
  unfolding find
  find-passes p [] x h = cc
  find-passes p (y ∷ xs) x h = ground (arith, find-passes p xs x)

pub All-append {ℓ κ} :
    {A : Type ℓ} (P : A → Type κ) (xs ys : List A) → All P xs → All P ys → All P (xs ++ ys)
All-append P [] ys h k = k
All-append P (x ∷ xs) ys h k = (h.0, All-append P xs ys h.1 k)

pub length-map {ℓ κ} :
    {A : Type ℓ} {B : Type κ} (f : A → B) (xs : List A) → length (map f xs) ≡ length xs
length-map f [] = refl
length-map f (x ∷ xs) = ap suc (length-map f xs)

module _ {ℓ} {A : Type ℓ} where
  pub Has-keep :
      (P : A → Type 0) (p : A → Bool) (xs : List A)
      → Has P (keep p xs)
      → Has (λ x. P x × (p x ≡ true)) xs
  unfolding keep
  Has-keep P p [] h = h
  Has-keep P p (x ∷ xs) h = ground (arith, Has-keep P p xs)

pub Has-map {ℓ} :
    {A : Type ℓ} (P Q : A → Type 0) (f : (x : A) → P x → Q x) (xs : List A) → Has P xs → Has Q xs
Has-map P Q f [] h = h
Has-map P Q f (x ∷ xs) (inl h) = inl (f x h)
Has-map P Q f (x ∷ xs) (inr h) = inr (Has-map P Q f xs h)

pub Has-snoc {ℓ} : {A : Type ℓ} (P : A → Type 0) (xs : List A) (x : A) → P x → Has P (xs ++ x ∷ [])
Has-snoc P [] x h = inl h
Has-snoc P (y ∷ xs) x h = inr (Has-snoc P xs x h)

pub keep-none {ℓ} : {A : Type ℓ} (p : A → Bool) (xs : List A) → any p xs ≡ false → keep p xs ≡ []
unfolding any keep
keep-none p [] h = refl
keep-none p (x ∷ xs) h = ground (arith, keep-none p xs)

pub length-keep_mono {ℓ} :
    {A : Type ℓ} (p q : A → Bool) (xs : List A)
    → ((x : A) → p x ≡ true → q x ≡ true)
    → length (keep p xs) ≤ length (keep q xs)
unfolding keep
length-keep_mono p q [] h = omega arith
length-keep_mono p q (x ∷ xs) h = ground (arith, h x, length-keep_mono p q xs h)

-- A rewriting that a filter does not see.
pub keep-replace {ℓ} :
    {A : Type ℓ} (p q : A → Bool) (f : A → A) (xs : List A)
    → ((x : A) → p (f x) ≡ p x)
    → keep p (replace q f xs) ≡ replace q f (keep p xs)
unfolding keep replace
keep-replace p q f [] h = refl
keep-replace p q f (x ∷ xs) h = ground (arith, h x, keep-replace p q f xs h)

module _ {ℓ} {A : Type ℓ} where
  pub All-keep :
      (P : A → Type 0) (p : A → Bool) (xs : List A)
      → All P (keep p xs)
      → All (λ x. p x ≡ true → P x) xs
  unfolding keep
  All-keep P p [] h = tt
  All-keep P p (x ∷ xs) h = ground (arith, All-keep P p xs)

module _ {A : Type 0} where
  pub keep-Has :
      (p : A → Bool) (a : A) (xs : List A)
      → p a ≡ true
      → Has (λ x. x ≡ a) xs
      → Has (λ x. x ≡ a) (keep p xs)
  unfolding keep
  keep-Has p a [] passes there = absurd there
  keep-Has p a (x ∷ xs) passes (inl same) = rw (same, passes) (inl refl)
  keep-Has p a (x ∷ xs) passes (inr there) = ground (arith, keep-Has p a xs passes there)

  -- The only row of a short table.
  pub only_row : (a : A) (xs : List A) → length xs ≤ 1 → Has (λ x. x ≡ a) xs → All (λ x. x ≡ a) xs
  only_row a [] h there = tt
  only_row a (x ∷ []) h (inl same) = (same, tt)
  only_row a (x ∷ []) h (inr there) = absurd there
  only_row a (x ∷ y ∷ more) h there = absurd (omega (arith, h))

pub All-map {ℓ} :
    {A : Type ℓ} (P Q : A → Type 0) (f : (x : A) → P x → Q x) (xs : List A) → All P xs → All Q xs
All-map P Q f [] h = tt
All-map P Q f (x ∷ xs) (px, more) = (f x px, All-map P Q f xs more)
