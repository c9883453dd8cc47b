-- ===== src/Prelude/Rows.antt =====
-- Rows that are found, replaced, added or filtered.
use mathlib.Core.Path.{◌≡◌, refl, sym, ap, ◌∙◌}
use mathlib.Core.Logic.{inl, inr}
use mathlib.Core.Bool.{Bool, true, false, not}
use mathlib.Core.Option.{Option, none, some}
use mathlib.Core.List.{List, [], ◌∷◌, ◌++◌, map}
use native.Mathlib.Omega.{arith}
use placement_assistant.Prelude.Tests.{Bool-cases, Option-cases, is_some}
use placement_assistant.Prelude.Lists.{All, Has, keep, find, replace, any, last}

pub append_nothing : {A : Type 0} (xs : List A) → xs ++ [] ≡ xs
append_nothing [] = refl
append_nothing (x ∷ xs) = ap (λ rest. x ∷ rest) (append_nothing xs)

pub keep_one : {A : Type 0} (p : A → Bool) (x : A) → p x ≡ true → keep p (x ∷ []) ≡ x ∷ []
unfolding keep
keep_one p x h = rw h refl

pub keep_other : {A : Type 0} (p : A → Bool) (x : A) → p x ≡ false → keep p (x ∷ []) ≡ []
unfolding keep
keep_other p x h = rw h refl

pub find-only :
    {A : Type 0} (p : A → Bool) (xs : List A) (x : A) → keep p xs ≡ x ∷ [] → find p xs ≡ some x
unfolding find keep
find-only p [] x h = cc
find-only p (y ∷ xs) x h = ground (arith, find-only p xs x)

pub find-snoc :
    {A : Type 0} (p : A → Bool) (xs : List A) (a : A)
    → find p xs ≡ none
    → p a ≡ true
    → find p (xs ++ a ∷ []) ≡ some a
unfolding find
find-snoc p [] a h passes = rw passes refl
find-snoc p (x ∷ xs) a h passes = ground (arith, find-snoc p xs a)

pub find-append :
    {A : Type 0} (p : A → Bool) (xs ys : List A) (a : A)
    → find p xs ≡ some a
    → find p (xs ++ ys) ≡ some a
unfolding find
find-append p [] ys a h = cc
find-append p (x ∷ xs) ys a h = ground (arith, find-append p xs ys a)

pub All-Has :
    {A : Type 0} (P : A → Type 0) (Q : A → Type 0) (xs : List A) (x : A)
    → All P xs
    → Has (λ y. (y ≡ x) × Q y) xs
    → P x × Q x
All-Has P Q [] x all there = absurd there
All-Has P Q (y ∷ ys) x all (inl (same, q)) = rw (sym same) (all.0, q)
All-Has P Q (y ∷ ys) x all (inr there) = All-Has P Q ys x all.1 there

pub All-replace :
    {A : Type 0} (P : A → Type 0) (p : A → Bool) (f : A → A) (xs : List A)
    → ((x : A) → P x → P (f x))
    → All P xs
    → All P (replace p f xs)
unfolding replace
All-replace P p f [] h all = tt
All-replace P p f (x ∷ xs) h all = elim (Bool-cases (p x)) [
  | inl passes ↦ rw passes (h x all.0, All-replace P p f xs h all.1)
  | inr fails ↦ rw fails (all.0, All-replace P p f xs h all.1)
]

pub any-replace :
    {A : Type 0} (q p : A → Bool) (f : A → A) (xs : List A)
    → ((x : A) → q (f x) ≡ false)
    → any q xs ≡ false
    → any q (replace p f xs) ≡ false
unfolding any replace
any-replace q p f [] h none_of = refl
any-replace q p f (x ∷ xs) h none_of = ground (arith, h x, any-replace q p f xs h)

pub keep_empty-any :
    {A : Type 0} (p q : A → Bool) (xs : List A)
    → ((x : A) → q x ≡ true → p x ≡ true)
    → keep p xs ≡ []
    → any q xs ≡ false
unfolding any keep
keep_empty-any p q [] h empty = refl
keep_empty-any p q (x ∷ xs) h empty = ground (arith, h x, keep_empty-any p q xs h)

pub is_some-some : {A : Type 0} (o : Option A) → is_some o ≡ true → (a : A) × (o ≡ some a)
is_some-some none h = cc
is_some-some (some a) h = (a, refl)

pub find-replace :
    {A : Type 0} (p : A → Bool) (f : A → A) (xs : List A)
    → ((x : A) → p (f x) ≡ p x)
    → any p xs ≡ true
    → (y : A) × (find p (replace p f xs) ≡ some (f y))
unfolding find replace any
find-replace p f [] h some_of = cc
find-replace p f (x ∷ xs) h some_of = elim (Bool-cases (p x)) [
  | inl passes ↦ (x, rw (passes, h x, passes) refl)
  | inr fails ↦
      let (y, there) = find-replace p f xs h (rw fails at some_of) in (y, rw (fails, fails) there)
]

pub find-added :
    {A : Type 0} (p : A → Bool) (xs : List A) (a : A)
    → any p xs ≡ false
    → p a ≡ true
    → find p (xs ++ a ∷ []) ≡ some a
unfolding find any
find-added p [] a h passes = rw passes refl
find-added p (x ∷ xs) a h passes = ground (arith, find-added p xs a)

pub All-Has_absurd :
    {A : Type 0} (P Q : A → Type 0) (xs : List A)
    → ((x : A) → P x → ¬ (Q x))
    → All P xs
    → ¬ (Has Q xs)
All-Has_absurd P Q [] h all there = there
All-Has_absurd P Q (x ∷ xs) h all (inl q) = h x all.0 q
All-Has_absurd P Q (x ∷ xs) h all (inr there) = All-Has_absurd P Q xs h all.1 there

-- What holds of each row that a filter keeps.
pub All-kept :
    {A : Type 0} (P : A → Type 0) (p : A → Bool) (xs : List A)
    → ((x : A) → Has (λ y. y ≡ x) xs → p x ≡ true → P x)
    → All P (keep p xs)
unfolding keep
All-kept P p [] h = tt
All-kept P p (x ∷ xs) h = elim (Bool-cases (p x)) [
  | inl passes ↦
      rw passes
        (h x (inl refl) passes, All-kept P p xs (λ y there passes_y. h y (inr there) passes_y))
  | inr fails ↦ rw fails (All-kept P p xs (λ y there passes_y. h y (inr there) passes_y))
]

pub All-mapped :
    {A B : Type 0} (P : B → Type 0) (f : A → B) (xs : List A)
    → All (λ x. P (f x)) xs
    → All P (map f xs)
All-mapped P f [] h = tt
All-mapped P f (x ∷ xs) h = (h.0, All-mapped P f xs h.1)

pub All-filtered :
    {A : Type 0} (P : A → Type 0) (p : A → Bool) (xs : List A) → All P xs → All P (keep p xs)
unfolding keep
All-filtered P p [] h = tt
All-filtered P p (x ∷ xs) h = elim (Bool-cases (p x)) [
  | inl passes ↦ rw passes (h.0, All-filtered P p xs h.1)
  | inr fails ↦ rw fails (All-filtered P p xs h.1)
]

pub last-All :
    {A : Type 0} (P : A → Type 0) (xs : List A) (x : A) → All P xs → last xs ≡ some x → P x
unfolding last
last-All P [] x all h = cc
last-All P (y ∷ xs) x all h = elim (Option-cases (last xs)) [
  | inl empty ↦ let same : y ≡ x = ground arith in rw (sym same) all.0
  | inr (z, there) ↦
      let same : z ≡ x = ground arith in last-All P xs x all.1 (there ∙ ap (λ w. some w) same)
]

pub keep_others-replace :
    {A : Type 0} (p : A → Bool) (f : A → A) (xs : List A)
    → ((x : A) → p (f x) ≡ p x)
    → keep (λ x. not (p x)) (replace p f xs) ≡ keep (λ x. not (p x)) xs
unfolding keep replace
keep_others-replace p f [] h = refl
keep_others-replace p f (x ∷ xs) h = ground (arith, h x, keep_others-replace p f xs h)

pub keep_others-added :
    {A : Type 0} (p : A → Bool) (xs : List A) (x : A)
    → p x ≡ true
    → keep (λ y. not (p y)) (xs ++ x ∷ []) ≡ keep (λ y. not (p y)) xs
unfolding keep
keep_others-added p [] x h = rw h refl
keep_others-added p (y ∷ ys) x h = ground (arith, keep_others-added p ys x h)
