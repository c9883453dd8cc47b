-- ===== src/Prelude/Frames.antt =====
-- A relation between the state before an action and the state after it, whether the action returns
-- or raises; one rule for each way to build an action.
use mathlib.Core.Path.{◌≡◌, refl}
use mathlib.Core.Bool.{Bool, true, false}
use mathlib.Core.Option.{Option, none, some}
use placement_assistant.Prelude.Tests.{if◌then◌else◌}
use placement_assistant.Prelude.Outcome.{
  Error, Result, ok, err, Action, continue, ◌>>=◌, pure, raise, raise_if, or_raise, gets, lift,
}

pub record Respects {S A : Type 0} (R : S → S → Type 0) (m : Action S A) : Type 0 where
  pub at : (s : S) → R s (m s).1

-- A relation that a sequence of steps keeps.
pub record IsPreorder {S : Type 0} (R : S → S → Type 0) : Type 0 where
  pub reflexive : (s : S) → R s s
  pub transitive : (s t u : S) → R s t → R t u → R s u

module _ {S A : Type 0} {R : S → S → Type 0} (o : IsPreorder R) where
  pub Respects-pure : (a : A) → Respects R (pure a)
  Respects-pure a = record { at = λ s. o.reflexive s }

  pub Respects-raise : (e : Error) → Respects R (raise {S = S} {A = A} e)
  Respects-raise e = record { at = λ s. o.reflexive s }

  pub Respects-gets : (f : S → A) → Respects R (gets f)
  Respects-gets f = record { at = λ s. o.reflexive s }

  pub Respects-lift : (r : Result A) → Respects R (lift r)
  Respects-lift r = record { at = λ s. o.reflexive s }

  pub Respects-if :
      (b : Bool) (m n : Action S A) → Respects R m → Respects R n → Respects R (if b then m else n)
  Respects-if true m n hm hn = hm
  Respects-if false m n hm hn = hn

module _ {S A B : Type 0} {R : S → S → Type 0} (o : IsPreorder R) where
  pub Respects-continue :
      (f : A → Action S B) (r : Result A) (s : S)
      → ((a : A) → r ≡ ok a → R s (f a s).1)
      → R s (continue r f s).1
  Respects-continue f (ok a) s h = h a refl
  Respects-continue f (err e) s h = o.reflexive s

  pub Respects-bind :
      (m : Action S A) (f : A → Action S B)
      → Respects R m
      → ((a : A) → Respects R (f a))
      → Respects R (m >>= f)
  Respects-bind m f hm hf = record {
    at = λ s.
        o.transitive s (m s).1 _ (hm.at s)
          (Respects-continue f (m s).0 (m s).1 (λ a _. (hf a).at (m s).1));
  }

-- An action that begins by reading, or by a test that may raise.
module _ {S B : Type 0} {R : S → S → Type 0} (o : IsPreorder R) where
  pub Respects-read :
      {A : Type 0} (f : S → A) (k : A → Action S B)
      → ((a : A) → Respects R (k a))
      → Respects R (gets f >>= k)
  Respects-read f k h = record { at = λ s. (h (f s)).at s }

  pub Respects-require :
      {A : Type 0} (e : Error) (x : Option A) (k : A → Action S B)
      → ((a : A) → Respects R (k a))
      → Respects R (or_raise e x >>= k)
  Respects-require e none k h = record { at = λ s. o.reflexive s }
  Respects-require e (some a) k h = h a

  pub Respects-refuse :
      (b : Bool) (e : Error) (k : Action S B) → Respects R k → Respects R (raise_if b e >>= λ _. k)
  Respects-refuse true e k h = record { at = λ s. o.reflexive s }
  Respects-refuse false e k h = h
