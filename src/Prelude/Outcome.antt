-- ===== src/Prelude/Outcome.antt =====
-- How a call ends: with a value, or with the exception that it raised; and calls on a state.
use Prim.Native.Nat.{ℕ}
use Prim.Native.String.{String}
use mathlib.Core.Path.{◌≡◌, refl}
use mathlib.Core.Bool.{Bool, true, false}
use mathlib.Core.Logic.{◌⊎◌, inl, inr}
use mathlib.Core.Option.{Option, none, some}

pub data Error : Type 0 where
  -- fastapi.HTTPException, with its status and the code in its detail, or a detail that is a text
  http http_detail : ℕ → String → Error
  -- app.rag.contracts.EvidenceError, with its code
  evidence : String → Error
  -- an exception that a trigger of the database raises, with its message
  database : String → Error
  permission validation_error value_error runtime_error attribute_error integrity_error
        multiple_results :
      Error
  budget_exhausted cycle_detected : Error

pub data Result {ℓ} (A : Type ℓ) : Type ℓ where
  ok : A → Result A
  err : Error → Result A

-- What was written before a raise stays written, so the state comes back beside the error too.
abbrev pub Action {ℓ} : Type ℓ → Type ℓ → Type ℓ
Action S A = S → Result A × S

abbrev pub continue {ℓ} : {S A B : Type ℓ} → Result A → (A → Action S B) → Action S B
continue (ok a) f s = f a s
continue (err e) f s = (err e, s)

module _ {ℓ} {S A B : Type ℓ} where
  infixl 5 ◌>>=◌ ◌>>◌
  abbrev pub ◌>>=◌ : Action S A → (A → Action S B) → Action S B
  ◌>>=◌ m f s = let (r, s') = m s in continue r f s'

  abbrev pub ◌>>◌ : Action S A → Action S B → Action S B
  m >> k = m >>= λ _. k

module _ {ℓ} {S A : Type ℓ} where
  abbrev pub pure : A → Action S A
  pure a s = (ok a, s)

  abbrev pub raise : Error → Action S A
  raise e s = (err e, s)

  abbrev pub gets : (S → A) → Action S A
  gets f s = (ok (f s), s)

  abbrev pub lift : Result A → Action S A
  lift r s = (r, s)

  abbrev pub or_raise : Error → Option A → Action S A
  or_raise e none = raise e
  or_raise e (some a) = pure a

module _ {S : Type 0} where
  abbrev pub raise_if : Bool → Error → Action S Unit
  raise_if true e s = (err e, s)
  raise_if false e s = (ok tt, s)

  abbrev pub modify : (S → S) → Action S Unit
  modify f s = (ok tt, f s)

-- Inversion of a sequence that returned.
module _ {ℓ} {S A B : Type ℓ} where
  pub continue-eq-ok :
      (r : Result A) (f : A → Action S B) (s : S) (b : B)
      → (continue r f s).0 ≡ ok b
      → (a : A) × (r ≡ ok a) × ((f a s).0 ≡ ok b)
  continue-eq-ok (ok a) f s b h = (a, refl, h)
  continue-eq-ok (err e) f s b h = cc

  -- The same with the state, for the three ways in which a call begins.
  pub continue-inversion :
      (r : Result A) (f : A → Action S B) (s s' : S) (b : B)
      → continue r f s ≡ (ok b, s')
      → (a : A) × (r ≡ ok a) × (f a s ≡ (ok b, s'))
  continue-inversion (ok a) f s s' b h = (a, refl, h)
  continue-inversion (err e) f s s' b h = cc

  pub or_raise-inversion :
      (e : Error) (o : Option A) (f : A → Action S B) (s s' : S) (b : B)
      → (or_raise e o >>= f) s ≡ (ok b, s')
      → (a : A) × (o ≡ some a) × (f a s ≡ (ok b, s'))
  or_raise-inversion e none f s s' b h = cc
  or_raise-inversion e (some a) f s s' b h = (a, refl, h)

module _ {S B : Type 0} where
  pub raise_if-inversion :
      (t : Bool) (e : Error) (f : Unit {0} → Action S B) (s s' : S) (b : B)
      → (raise_if t e >>= f) s ≡ (ok b, s')
      → (t ≡ false) × (f tt s ≡ (ok b, s'))
  raise_if-inversion true e f s s' b h = cc
  raise_if-inversion false e f s s' b h = (refl, h)

pub Result-cases {ℓ} :
    {A : Type ℓ} (r : Result A) → ((a : A) × (r ≡ ok a)) ⊎ ((e : Error) × (r ≡ err e))
Result-cases (ok a) = inl (a, refl)
Result-cases (err e) = inr (e, refl)
