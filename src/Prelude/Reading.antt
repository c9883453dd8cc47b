-- ===== src/Prelude/Reading.antt =====
-- Calls that only read: a result for each state. A `do` block of them stops at the first exception.
use mathlib.Core.Path.{◌≡◌, refl}
use mathlib.Core.Option.{Option, none, some}
use placement_assistant.Prelude.Outcome.{Error, Result, ok, err, Action}

abbrev pub Reading {ℓ} : Type ℓ → Type ℓ → Type ℓ
Reading S A = S → Result A

abbrev pub on_ok {ℓ} : {S A B : Type ℓ} → Result A → (A → Reading S B) → Reading S B
on_ok (ok a) f s = f a s
on_ok (err e) f s = err e

module _ {ℓ} {S A B : Type ℓ} where
  infixl 5 ◌>>=◌ ◌>>◌
  abbrev pub ◌>>=◌ : Reading S A → (A → Reading S B) → Reading S B
  ◌>>=◌ m f s = on_ok (m s) f s

  abbrev pub ◌>>◌ : Reading S A → Reading S B → Reading S B
  m >> k = m >>= λ _. k

module _ {ℓ} {S A : Type ℓ} where
  abbrev pub give : A → Reading S A
  give a s = ok a

  abbrev pub ask : (S → A) → Reading S A
  ask f s = ok (f s)

  -- The value that is there, or the exception.
  abbrev pub found_or : Error → Option A → Reading S A
  found_or e none s = err e
  found_or e (some a) s = ok a

  -- A reading as a call.
  abbrev pub reads : Reading S A → Action S A
  reads m s = (m s, s)

module _ {ℓ} {S A B : Type ℓ} where
  -- A reading that raises at its first step or at its second.
  pub on_ok-err :
      (r : Result A) (f : A → Reading S B) (s : S)
      → ((a : A) → (e : Error) × (f a s ≡ err e))
      → (e : Error) × (on_ok r f s ≡ err e)
  on_ok-err (ok a) f s h = h a
  on_ok-err (err e) f s h = (e, refl)

  pub on_ok-raised :
      (r : Result A) (f : A → Reading S B) (s : S)
      → (e : Error) × (r ≡ err e)
      → (e : Error) × (on_ok r f s ≡ err e)
  on_ok-raised (ok a) f s (e, raised) = cc
  on_ok-raised (err x) f s h = (x, refl)

  -- A reading that returned, at its first step.
  pub on_ok-inversion :
      (r : Result A) (f : A → Reading S B) (s : S) (b : B)
      → on_ok r f s ≡ ok b
      → (a : A) × (r ≡ ok a) × (f a s ≡ ok b)
  on_ok-inversion (ok a) f s b h = (a, refl, h)
  on_ok-inversion (err e) f s b h = cc
