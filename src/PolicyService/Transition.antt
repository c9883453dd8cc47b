-- ===== src/PolicyService/Transition.antt =====
-- What a transition of a policy version does.
use placement_assistant.Prelude.{
  ℕ, String, true, false, not, ◌&&◌, ◌≡◌, ◌≢◌, refl, sym, ap, ◌∙◌, ◌⊎◌, inl, inr, Option, none,
  some, [], ◌∷◌, ◌++◌, keep, keep-passes, replace, Result, ok, err, http, Error, continue, or_raise,
  ◌>>=◌, Bool-cases, arith, ◌==◌, ==_iff,
}
use placement_assistant.Database.{
  Db, Principal, Role, PolicyStatus, draft, processing, review, approved, active, archived,
  PolicyVersion, one_or_none, one_or_none-some,
}
use placement_assistant.Repositories.{in_tenant, get_by_id, update}
use placement_assistant.Repositories.Tables.{versions}
use placement_assistant.PolicyService.{
  lifecycle_event, latest_event_version, valid_transition, needs_staff, is_staff, record_event,
  set_status, advance, transition_status,
}

-- The life of a policy version: one step, and nothing leads back.
pub data Edge : PolicyStatus → PolicyStatus → Type 0 where
  process : Edge draft processing
  submit : Edge processing review
  approve : Edge review approved
  activate : Edge approved active
  archive : Edge active archived

valid_transition-Edge : (s t : PolicyStatus) → valid_transition s t ≡ true → Edge s t
unfolding valid_transition
valid_transition-Edge draft processing h = process
valid_transition-Edge processing review h = submit
valid_transition-Edge review approved h = approve
valid_transition-Edge approved active h = activate
valid_transition-Edge active archived h = archive
valid_transition-Edge _ _ h = cc

module _ (p : Principal) (now version_id : ℕ) (reason : String) (target : PolicyStatus) where
  pub moved : PolicyVersion → Db → Db
  moved v db = record db {
    policy_versions = replace (λ x. x.id == v.id) (set_status target) db.policy_versions;
  }

  advance-valid :
      (v : PolicyVersion) (db : Db)
      → valid_transition v.status target ≡ true
      → (needs_staff target && not (is_staff p.role)) ≡ false
      → v.institution_id ≡ p.institution_id
      → advance p now version_id reason target v db ≡ (
        ok (set_status target v),
        (record_event p now version_id (some v.status) target reason (moved v db)).1,
      )
  unfolding advance update moved
  advance-valid v db valid allowed mine =
      rw (valid, allowed, (==_iff v.institution_id p.institution_id).1 mine) refl

  advance-invalid :
      (v : PolicyVersion) (db : Db)
      → valid_transition v.status target ≡ false
      → advance p now version_id reason target v db ≡ (err (http 400 "INVALID_OPERATION"), db)
  unfolding advance
  advance-invalid v db invalid = rw invalid refl

  advance-forbidden :
      (v : PolicyVersion) (db : Db)
      → valid_transition v.status target ≡ true
      → (needs_staff target && not (is_staff p.role)) ≡ true
      → advance p now version_id reason target v db ≡ (err (http 403 "FORBIDDEN"), db)
  unfolding advance
  advance-forbidden v db valid forbidden = rw (valid, forbidden) refl

  in_tenant-institution :
      (v : PolicyVersion)
      → in_tenant versions p.institution_id version_id v ≡ true
      → v.institution_id ≡ p.institution_id
  unfolding in_tenant
  in_tenant-institution v h = ground arith

  -- A transition that returned, from what was found to what was written.
  pub record IsTransition (db : Db) (v : PolicyVersion) (db' : Db) : Type 0 where
    pub before : PolicyVersion
    pub read :
        keep (in_tenant versions p.institution_id version_id) db.policy_versions ≡ before ∷ []
    pub edge : Edge before.status target
    pub by_staff : (target ≡ approved) ⊎ (target ≡ active) → p.role ≢ Role.student
    pub returned : v ≡ set_status target before
    pub written :
        db'.policy_versions
        ≡ replace (λ x. x.id == before.id) (set_status target) db.policy_versions
    pub recorded :
        db'.policy_events
        ≡ db.policy_events
          ++ lifecycle_event p now version_id
              (some before.status)
              target
              reason
              (latest_event_version p version_id db)
            ∷ []
    pub rules_stay : db'.policy_rules ≡ db.policy_rules
    pub activations_stay : db'.policy_activations ≡ db.policy_activations

  staff_only :
      (needs_staff target && not (is_staff p.role)) ≡ false
      → (target ≡ approved) ⊎ (target ≡ active)
      → p.role ≢ Role.student
  unfolding needs_staff is_staff
  staff_only allowed guarded is_student = ground arith

  advance-IsTransition :
      (before : PolicyVersion) (db : Db) (v : PolicyVersion) (db' : Db)
      → keep (in_tenant versions p.institution_id version_id) db.policy_versions ≡ before ∷ []
      → before.institution_id ≡ p.institution_id
      → advance p now version_id reason target before db ≡ (ok v, db')
      → IsTransition db v db'
  unfolding moved record_event
  advance-IsTransition before db v db' read mine h =
      elim (Bool-cases (valid_transition before.status target)) [
        | inr invalid ↦ cc (sym h ∙ advance-invalid before db invalid)
        | inl valid ↦ elim (Bool-cases (needs_staff target && not (is_staff p.role))) [
          | inl forbidden ↦ cc (sym h ∙ advance-forbidden before db valid forbidden)
          | inr allowed ↦
              let done = sym h ∙ advance-valid before db valid allowed mine in
              let same : v ≡ set_status target before = cc done in
              let left : db'
                  ≡ (record_event p now version_id (some before.status) target reason
                      (moved before db)).1 =
                cc done in
              record {
                before = before;
                read = read;
                edge = valid_transition-Edge before.status target valid;
                by_staff = staff_only allowed;
                returned = same;
                written = rw left refl;
                recorded = rw left refl;
                rules_stay = rw left refl;
                activations_stay = rw left refl;
              }
        ]
      ]

  continue-IsTransition :
      (found : Result (Option PolicyVersion)) (db : Db) (v : PolicyVersion) (db' : Db)
      → one_or_none (keep (in_tenant versions p.institution_id version_id) db.policy_versions)
        ≡ found
      → continue found
          (λ o. or_raise (http 404 "NOT_FOUND") o >>= advance p now version_id reason target)
          db
        ≡ (ok v, db')
      → IsTransition db v db'
  continue-IsTransition (err e) db v db' read h = cc
  continue-IsTransition (ok none) db v db' read h = cc
  continue-IsTransition (ok (some before)) db v db' read h =
      let kept = one_or_none-some _ before read in
      advance-IsTransition before db v db' kept
        (in_tenant-institution before
          (rw kept at
            (keep-passes (in_tenant versions p.institution_id version_id) db.policy_versions)).0)
        h

  -- A transition that returns moves the one version of that id in the caller's institution along an
  -- edge of the lifecycle, which never leads back; into APPROVED or ACTIVE no student moves it.
  -- Nothing but the status of the version is changed, its rules stay, and one event is appended that
  -- says from which status to which it went, numbered one past the latest of the version.
  pub transition_status-IsTransition :
      (db : Db) (v : PolicyVersion) (db' : Db)
      → transition_status p now version_id reason target db ≡ (ok v, db')
      → IsTransition db v db'
  unfolding transition_status get_by_id
  transition_status-IsTransition db v db' h = continue-IsTransition _ db v db' refl h

  advance-unchanged :
      (before : PolicyVersion) (db : Db) (e : Error)
      → before.institution_id ≡ p.institution_id
      → (advance p now version_id reason target before db).0 ≡ err e
      → (advance p now version_id reason target before db).1 ≡ db
  advance-unchanged before db e mine h = elim (Bool-cases (valid_transition before.status target)) [
    | inr invalid ↦ rw (advance-invalid before db invalid) refl
    | inl valid ↦ elim (Bool-cases (needs_staff target && not (is_staff p.role))) [
      | inl forbidden ↦ rw (advance-forbidden before db valid forbidden) refl
      | inr allowed ↦ cc (
          sym h
          ∙ ap (λ (r : Result PolicyVersion × Db). r.0)
              (advance-valid before db valid allowed mine))
    ]
  ]

  continue-unchanged :
      (found : Result (Option PolicyVersion)) (db : Db) (e : Error)
      → one_or_none (keep (in_tenant versions p.institution_id version_id) db.policy_versions)
        ≡ found
      → (continue found
          (λ o. or_raise (http 404 "NOT_FOUND") o >>= advance p now version_id reason target)
          db).0
        ≡ err e
      → (continue found
          (λ o. or_raise (http 404 "NOT_FOUND") o >>= advance p now version_id reason target)
          db).1
        ≡ db
  continue-unchanged (err x) db e read h = refl
  continue-unchanged (ok none) db e read h = refl
  continue-unchanged (ok (some before)) db e read h =
      advance-unchanged before db e
        (in_tenant-institution before
          (rw (one_or_none-some _ before read) at
            (keep-passes (in_tenant versions p.institution_id version_id) db.policy_versions)).0)
        h

  -- A transition that raises, for whatever reason, changes nothing.
  pub transition_status_unchanged :
      (db : Db) (e : Error)
      → (transition_status p now version_id reason target db).0 ≡ err e
      → (transition_status p now version_id reason target db).1 ≡ db
  unfolding transition_status get_by_id
  transition_status_unchanged db e h = continue-unchanged _ db e refl h
