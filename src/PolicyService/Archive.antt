-- ===== src/PolicyService/Archive.antt =====
-- Archiving a policy keeps the activations apart.
use placement_assistant.Prelude.{
  ℕ, ◌≤◌, String, Bool, true, not, ◌≡◌, refl, ap, inl, inr, Option, none, some, List, [], ◌∷◌, keep,
  unique_row, All-map, replace, All, keep-passes, length, Result, ok, err, Error, continue, pure,
  ◌>>◌, Bool-cases, arith, ◌==◌, ltb, if◌then◌else◌,
}
use placement_assistant.Database.{
  Db, Principal, archived, PolicyVersion, PolicyActivation, one_or_none, one_or_none-some,
}
use placement_assistant.Repositories.{update}
use placement_assistant.PolicyService.Transition.{
  transition_status-IsTransition, transition_status_unchanged,
}
use placement_assistant.PolicyService.Activation.{AllApart, Misses}
use placement_assistant.PolicyService.{
  clashes, transition_status, close_activation, archive_policy, close_version, open_for,
}

abbrev pub HasActivationKey : List PolicyActivation → Type 0
HasActivationKey xs = (id : ℕ) → length (keep (λ (a : PolicyActivation). a.id == id) xs) ≤ 1

-- The rows with that id are open.
abbrev OpenAt : ℕ → PolicyActivation → Type 0
OpenAt id x = (x.id == id) ≡ true → x.ends_at ≡ none

abbrev closed_at : ℕ → PolicyActivation → PolicyActivation
closed_at now x = record x { ends_at = some now }

abbrev step : ℕ → ℕ → PolicyActivation → PolicyActivation
step id now x = if x.id == id then closed_at now x else x

-- A shorter interval meets no more than the longer.
step-Misses :
    (id now : ℕ) (x y : PolicyActivation)
    → OpenAt id x
    → OpenAt id y
    → Misses x y
    → Misses (step id now x) (step id now y)
unfolding clashes
step-Misses id now x y hx hy apart = ground (arith, hx, hy)

All-step :
    (id now : ℕ) (b : PolicyActivation) (xs : List PolicyActivation)
    → OpenAt id b
    → All (OpenAt id) xs
    → All (λ c. Misses c b) xs
    → All (λ c. Misses c (step id now b)) (replace (λ x. x.id == id) (closed_at now) xs)
unfolding replace
All-step id now b [] hb open_rows far = tt
All-step id now b (x ∷ xs) hb (hx, more) (misses, far) =
    (step-Misses id now x b hx hb misses, All-step id now b xs hb more far)

replace-AllApart :
    (id now : ℕ) (xs : List PolicyActivation)
    → All (OpenAt id) xs
    → AllApart xs
    → AllApart (replace (λ x. x.id == id) (closed_at now) xs)
unfolding replace
replace-AllApart id now [] h apart = tt
replace-AllApart id now (x ∷ xs) (hx, more) (far, apart) =
    (All-step id now x xs hx more far, replace-AllApart id now xs more apart)

-- The open activation that the query returns is the only row with its id.
found-open :
    (q : PolicyActivation → Bool) (xs : List PolicyActivation) (a : PolicyActivation)
    → HasActivationKey xs
    → keep q xs ≡ a ∷ []
    → a.ends_at ≡ none
    → All (OpenAt a.id) xs
found-open q xs a key kept open_ended =
    All-map (λ x. (x.id == a.id) ≡ true → x ≡ a) (OpenAt a.id)
      (λ x same passes. rw (same passes) open_ended) xs (unique_row (λ x. x.id) q xs a key kept)

close_activation-AllApart :
    (p : Principal) (now : ℕ) (a : PolicyActivation) (db : Db)
    → All (OpenAt a.id) db.policy_activations
    → AllApart db.policy_activations
    → AllApart (close_activation p now (some a) db).1.policy_activations
unfolding close_activation update
close_activation-AllApart p now a db open_rows apart =
    elim (Bool-cases (not (ltb a.starts_at now))) [
      | inl refused ↦ rw refused apart
      | inr later ↦ elim (Bool-cases (not (a.institution_id == p.institution_id))) [
        | inl foreign ↦ rw (later, foreign) apart
        | inr mine ↦
            rw (later, mine) (replace-AllApart a.id now db.policy_activations open_rows apart)
      ]
    ]

state-then-pure :
    {A B : Type 0} (r : Result A) (b : B) (db : Db) → (continue r (λ _. pure b) db).1 ≡ db
state-then-pure (ok a) b db = refl
state-then-pure (err e) b db = refl

open_for-open :
    (p : Principal) (version_id : ℕ) (a : PolicyActivation)
    → open_for p version_id a ≡ true
    → a.ends_at ≡ none
open_for-open p version_id a h = ground arith

continue-AllApart :
    (p : Principal) (now version_id : ℕ) (found : Result (Option PolicyActivation)) (db : Db)
    → one_or_none (keep (open_for p version_id) db.policy_activations) ≡ found
    → HasActivationKey db.policy_activations
    → AllApart db.policy_activations
    → AllApart (continue found (close_activation p now) db).1.policy_activations
unfolding close_activation
continue-AllApart p now version_id (err e) db read key apart = apart
continue-AllApart p now version_id (ok none) db read key apart = apart
continue-AllApart p now version_id (ok (some a)) db read key apart =
    let kept = one_or_none-some _ a read in
    close_activation-AllApart p now a db
      (found-open (open_for p version_id) db.policy_activations a key kept (
        open_for-open p version_id a
          (rw kept at (keep-passes (open_for p version_id) db.policy_activations)).0))
      apart

after-AllApart :
    (p : Principal) (now version_id : ℕ) (r : Result PolicyVersion) (db db' : Db)
    → ((v : PolicyVersion) → r ≡ ok v → db'.policy_activations ≡ db.policy_activations)
    → ((e : Error) → r ≡ err e → db' ≡ db)
    → HasActivationKey db.policy_activations
    → AllApart db.policy_activations
    → AllApart (continue r (λ v. close_version p now version_id >> pure v) db').1.policy_activations
unfolding close_version
after-AllApart p now version_id (err e) db db' done raised key apart = rw (raised e refl) apart
after-AllApart p now version_id (ok v) db db' done raised key apart =
    rw
      (state-then-pure (close_version p now version_id db').0 v
        (close_version p now version_id db').1)
      (continue-AllApart p now version_id _ db' refl (rw (done v refl) key)
        (rw (done v refl) apart))

-- Archiving a policy, which ends its open activation, keeps the activations apart, whether it succeeds
-- or raises, if their ids are unique.
pub archive_policy-AllApart :
    (p : Principal) (now version_id : ℕ) (reason : String) (db : Db)
    → HasActivationKey db.policy_activations
    → AllApart db.policy_activations
    → AllApart (archive_policy p now version_id reason db).1.policy_activations
unfolding archive_policy
archive_policy-AllApart p now version_id reason db key apart =
    after-AllApart p now version_id (transition_status p now version_id reason archived db).0 db
      (transition_status p now version_id reason archived db).1
      (λ v ok_v.
        (transition_status-IsTransition p now version_id reason archived db v _ (
          ap
            (λ (r : Result PolicyVersion).
              (r, (transition_status p now version_id reason archived db).1))
            ok_v)).activations_stay)
      (λ e raised. transition_status_unchanged p now version_id reason archived db e raised) key
      apart
