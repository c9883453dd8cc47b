-- ===== src/PolicyService/Activation.antt =====
-- Activations of one institution, year and scope do not overlap, so that an evaluation finds at most
-- one active policy.
use placement_assistant.Prelude.{
  ℕ, ◌≤◌, String, true, false, not, ◌&&◌, ◌||◌, ◌≡◌, ◌≢◌, refl, ap, inl, inr, Option, List, [], ◌∷◌,
  ◌++◌, keep, any, All, All-append, length, length-append, length-keep_mono, Result, ok, err, http,
  Error, continue, Bool-cases, arith, ◌==◌, eq_iff,
}
use placement_assistant.Database.{Db, Principal, active, PolicyVersion, PolicyActivation}
use placement_assistant.Repositories.{insert}
use placement_assistant.EligibilityService.Snapshot.{
  get_active_policy, active_at, joined, only_policy, is_active_version,
}
use placement_assistant.PolicyService.Transition.{
  transition_status-IsTransition, transition_status_unchanged,
}
use placement_assistant.PolicyService.{
  clashes, bounded, add_activation, transition_status, activate_policy,
}

abbrev pub Misses : PolicyActivation → PolicyActivation → Type 0
Misses a b = clashes a b ≡ false

-- No two of them, at different places in the list, clash.
abbrev pub AllApart : List PolicyActivation → Type 0
AllApart [] = Unit
AllApart (a ∷ rest) = All (λ b. Misses b a) rest × AllApart rest

any-Misses :
    (a : PolicyActivation) (xs : List PolicyActivation)
    → any (clashes a) xs ≡ false
    → All (Misses a) xs
unfolding any
any-Misses a [] h = tt
any-Misses a (b ∷ bs) h = ground (arith, any-Misses a bs)

snoc-AllApart :
    (xs : List PolicyActivation) (a : PolicyActivation)
    → AllApart xs
    → All (Misses a) xs
    → AllApart (xs ++ a ∷ [])
snoc-AllApart [] a h m = (tt, tt)
snoc-AllApart (b ∷ bs) a (far, apart) (misses, more) =
    (All-append (λ c. Misses c b) bs (a ∷ []) far (misses, tt), snoc-AllApart bs a apart more)

add_activation-AllApart :
    (p : Principal) (a : PolicyActivation) (db : Db)
    → AllApart db.policy_activations
    → AllApart (add_activation p a db).1.policy_activations
unfolding add_activation insert
add_activation-AllApart p a db h =
    elim (Bool-cases (not (bounded a) || any (clashes a) db.policy_activations)) [
      | inl refused ↦ rw refused h
      | inr fits ↦ rw fits (
          snoc-AllApart db.policy_activations a h
            (any-Misses a db.policy_activations (ground arith)))
    ]

-- Two activations of one slot that are active at one time clash.
active-clash :
    (p : Principal) (year : ℕ) (scope : String) (time : ℕ) (a b : PolicyActivation)
    → active_at p year scope time a ≡ true
    → active_at p year scope time b ≡ true
    → clashes a b ≡ true
unfolding clashes active_at
active-clash p year scope time a b ha hb =
    ground (arith, eq_iff a.scope scope, eq_iff b.scope scope, eq_iff a.scope b.scope)

-- Nothing that misses an active activation is active.
keep-active :
    (p : Principal) (year : ℕ) (scope : String) (time : ℕ) (a : PolicyActivation)
    (xs : List PolicyActivation)
    → active_at p year scope time a ≡ true
    → All (λ b. Misses b a) xs
    → keep (active_at p year scope time) xs ≡ []
unfolding keep
keep-active p year scope time a [] now far = refl
keep-active p year scope time a (b ∷ bs) now (far, more) =
    ground (arith, active-clash p year scope time b a, keep-active p year scope time a bs now more)

keep-AllApart :
    (p : Principal) (year : ℕ) (scope : String) (time : ℕ) (xs : List PolicyActivation)
    → AllApart xs
    → length (keep (active_at p year scope time) xs) ≤ 1
unfolding keep
keep-AllApart p year scope time [] h = omega arith
keep-AllApart p year scope time (a ∷ rest) (far, apart) =
    elim (Bool-cases (active_at p year scope time a)) [
      | inl now ↦ rw (now, keep-active p year scope time a rest now far) (omega arith)
      | inr later ↦ rw later (keep-AllApart p year scope time rest apart)
    ]

-- A table's primary key.
abbrev pub HasKey : List PolicyVersion → Type 0
HasKey vs = (id : ℕ) → length (keep (λ (v : PolicyVersion). id == v.id) vs) ≤ 1

status : Result PolicyVersion → ℕ
status (err (http code text)) = code
status _ = 0

only_policy-ne-ambiguous :
    (vs : List PolicyVersion) → length vs ≤ 1 → only_policy vs ≢ err (http 500 "POLICY_AMBIGUITY")
unfolding only_policy status
only_policy-ne-ambiguous [] h e = omega (arith, ap status e)
only_policy-ne-ambiguous (v ∷ []) h e = cc
only_policy-ne-ambiguous (v ∷ w ∷ more) h e = omega (arith, h)

joined-length :
    (xs : List PolicyActivation) (vs : List PolicyVersion)
    → length xs ≤ 1
    → HasKey vs
    → length (joined xs vs) ≤ 1
unfolding joined
joined-length [] vs h key = omega arith
joined-length (a ∷ []) vs h key = rw length-append (
    omega (
      arith,
      length-keep_mono (λ v. a.policy_version_id == v.id && is_active_version v.status)
          (λ v. a.policy_version_id == v.id) vs (λ v both. ground (arith, both)),
      key a.policy_version_id,
    ))
joined-length (a ∷ b ∷ more) vs h key = omega (arith, h)

-- If no two activations overlap and version ids are unique, then no evaluation, at any time, finds
-- an ambiguous policy.
pub get_active_policy_unambiguous :
    (p : Principal) (year : ℕ) (scope : String) (time : ℕ) (db : Db)
    → AllApart db.policy_activations
    → HasKey db.policy_versions
    → get_active_policy p year scope time db ≢ err (http 500 "POLICY_AMBIGUITY")
unfolding get_active_policy
get_active_policy_unambiguous p year scope time db apart key = only_policy-ne-ambiguous _ (
    joined-length (keep (active_at p year scope time) db.policy_activations) db.policy_versions
      (keep-AllApart p year scope time db.policy_activations apart) key)

continue-AllApart :
    (p : Principal) (f : PolicyVersion → PolicyActivation) (r : Result PolicyVersion) (db db' : Db)
    → ((v : PolicyVersion) → r ≡ ok v → db'.policy_activations ≡ db.policy_activations)
    → ((e : Error) → r ≡ err e → db' ≡ db)
    → AllApart db.policy_activations
    → AllApart (continue r (λ v. add_activation p (f v)) db').1.policy_activations
continue-AllApart p f (err e) db db' done raised h = rw (raised e refl) h
continue-AllApart p f (ok v) db db' done raised h =
    add_activation-AllApart p (f v) db' (rw (done v refl) h)

-- An activation of a policy keeps the activations apart, whether it succeeds, is refused by the
-- exclusion constraint or raises before.
pub activate_policy-AllApart :
    (p : Principal) (new_id now version_id : ℕ) (reason : String) (starts_at : ℕ)
    (ends_at : Option ℕ) (db : Db)
    → AllApart db.policy_activations
    → AllApart
        (activate_policy p new_id now version_id reason starts_at ends_at db).1.policy_activations
unfolding activate_policy
activate_policy-AllApart p new_id now version_id reason starts_at ends_at db h =
    continue-AllApart p _ (transition_status p now version_id reason active db).0 db
      (transition_status p now version_id reason active db).1
      (λ v ok_v.
        (transition_status-IsTransition p now version_id reason active db v _ (
          ap
            (λ (r : Result PolicyVersion).
              (r, (transition_status p now version_id reason active db).1))
            ok_v)).activations_stay)
      (λ e raised. transition_status_unchanged p now version_id reason active db e raised) h
