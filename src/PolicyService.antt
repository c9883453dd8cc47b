-- ===== src/PolicyService.antt =====
-- The policy service: apps/api/app/core/services/policy_service.py. A flush raises IntegrityError
-- for the constraints on policies, versions, rules and activations; those on academic years, which are no
-- table here, and on text lengths are left out.
pub mod Transition
pub mod Rules
pub mod Activation
pub mod Archive
pub mod Audit
pub mod Documents
mod Tests
use placement_assistant.Prelude.{
  ℕ, ◌+◌, String, Bool, true, false, not, ◌&&◌, ◌||◌, Option, none, some, List, [], ◌∷◌, ◌++◌, keep,
  any, Result, ok, err, http, integrity_error, Action, ◌>>=◌, ◌>>◌, pure, gets, or_raise, raise_if,
  modify, ◌==◌, ltb, str_eq, if◌then◌else◌,
}
use placement_assistant.Value.{Fields}
use placement_assistant.Database.{
  Db, Principal, Role, Policy, PolicyStatus, draft, processing, review, approved, active, archived,
  PolicyVersion, PolicyEvent, PolicyRule, PolicyActivation, one_or_none, greatest, column_or_zero,
}
use placement_assistant.Repositories.{get_by_id, exists_row, insert, update}
use placement_assistant.Repositories.Tables.{policies, versions, rules, activations}

-- valid_transitions
unfoldable pub valid_transition : PolicyStatus → PolicyStatus → Bool
valid_transition draft processing = true
valid_transition processing review = true
valid_transition review approved = true
valid_transition approved active = true
valid_transition active archived = true
valid_transition _ _ = false

-- APPROVED and ACTIVE
unfoldable pub needs_staff : PolicyStatus → Bool
needs_staff approved = true
needs_staff active = true
needs_staff _ = false

unfoldable pub is_staff : Role → Bool
is_staff Role.coordinator = true
is_staff Role.admin = true
is_staff Role.student = false

-- APPROVED, ACTIVE, ARCHIVED, and then REVIEW
unfoldable pub is_frozen : PolicyStatus → Bool
is_frozen draft = false
is_frozen processing = false
is_frozen _ = true

-- What a caller gives for a version.
pub record VersionDraft : Type 0 where
  pub academic_year_id : ℕ
  pub scope : String
  pub schema_version : ℕ
  pub definition : Fields

starts_before : ℕ → Option ℕ → Bool
starts_before start none = true
starts_before start (some ends_at) = ltb start ends_at

-- The exclusion constraint on activations: one institution, year and scope, and intervals that meet.
unfoldable pub clashes : PolicyActivation → PolicyActivation → Bool
unfolding starts_before
clashes a b =
    a.institution_id == b.institution_id
    && a.academic_year_id == b.academic_year_id
    && str_eq a.scope b.scope
    && starts_before a.starts_at b.ends_at
    && starts_before b.starts_at a.ends_at

-- interval_bounds
bounded : PolicyActivation → Bool
unfolding starts_before
bounded a = starts_before a.starts_at a.ends_at

abbrev pub set_status : PolicyStatus → PolicyVersion → PolicyVersion
set_status target v = record v { status = target }

module _ (p : Principal) where
  pub create_policy : ℕ → String → String → Action Db Policy
  create_policy new_id code name = do
    taken ←
        gets
          (λ db. any (λ r. r.institution_id == p.institution_id && str_eq r.code code) db.policies)
    raise_if taken integrity_error
    insert policies p.institution_id
        (record { id = new_id; institution_id = p.institution_id; code = code; name = name })

  abbrev event_number : PolicyEvent → ℕ
  event_number e = e.version

  abbrev of_version : ℕ → PolicyEvent → Bool
  of_version version_id e =
      e.institution_id == p.institution_id && e.policy_version_id == version_id

  abbrev pub latest_event_version : ℕ → Db → ℕ
  latest_event_version version_id db =
      column_or_zero event_number
        (greatest event_number (keep (of_version version_id) db.policy_events))

  abbrev pub lifecycle_event : ℕ → ℕ → Option PolicyStatus → PolicyStatus → String → ℕ → PolicyEvent
  lifecycle_event now version_id from_status to_status reason latest = record {
    institution_id = p.institution_id;
    policy_version_id = version_id;
    version = latest + 1;
    effective_at = now;
    from_status = from_status;
    status = to_status;
    reason = reason;
  }

  -- `_record_event`
  record_event : ℕ → ℕ → Option PolicyStatus → PolicyStatus → String → Action Db Unit
  record_event now version_id from_status to_status reason = do
    latest ← gets (latest_event_version version_id)
    modify (λ db. record db {
      policy_events =
          db.policy_events
          ++ lifecycle_event now version_id from_status to_status reason latest ∷ [];
    })

  pub create_policy_version : ℕ → ℕ → ℕ → VersionDraft → Action Db PolicyVersion
  unfolding record_event
  create_policy_version new_id now policy_id given = do
    known ← gets (exists_row policies p.institution_id policy_id)
    raise_if (not known) (http 404 "NOT_FOUND")
    latest_version ← gets (λ db.
        column_or_zero (λ v. v.version)
          (greatest (λ v. v.version)
            (keep (λ v. v.institution_id == p.institution_id && v.policy_id == policy_id)
              db.policy_versions)))
    raise_if (given.schema_version == 0) integrity_error
    version ← insert versions p.institution_id (record {
      id = new_id;
      institution_id = p.institution_id;
      policy_id = policy_id;
      version = latest_version + 1;
      academic_year_id = given.academic_year_id;
      scope = given.scope;
      status = draft;
      schema_version = given.schema_version;
      definition = given.definition;
      effective_at = now;
    })
    record_event now version.id none draft "Initial draft created"
    pure version

  pub add_policy_rule : ℕ → ℕ → String → Fields → Action Db PolicyRule
  add_policy_rule new_id version_id code definition = do
    found ← get_by_id versions p.institution_id version_id
    version ← or_raise (http 404 "NOT_FOUND") found
    raise_if (is_frozen version.status) (http 400 "INVALID_OPERATION")
    taken ← gets (λ db.
        any
          (λ r.
            r.institution_id == p.institution_id
            && r.policy_version_id == version_id
            && str_eq r.code code)
          db.policy_rules)
    raise_if taken integrity_error
    insert rules p.institution_id (record {
      id = new_id;
      institution_id = p.institution_id;
      policy_version_id = version_id;
      code = code;
      definition = definition;
    })

  -- What `transition_status` does with the version that it found.
  pub advance : ℕ → ℕ → String → PolicyStatus → PolicyVersion → Action Db PolicyVersion
  unfolding record_event
  advance now version_id reason target version = do
    raise_if (not (valid_transition version.status target)) (http 400 "INVALID_OPERATION")
    raise_if (needs_staff target && not (is_staff p.role)) (http 403 "FORBIDDEN")
    moved ← update versions p.institution_id (set_status target) version
    record_event now version_id (some version.status) target reason
    pure moved

  pub transition_status : ℕ → ℕ → String → PolicyStatus → Action Db PolicyVersion
  transition_status now version_id reason target = do
    found ← get_by_id versions p.institution_id version_id
    version ← or_raise (http 404 "NOT_FOUND") found
    advance now version_id reason target version

  unfoldable pub approve_policy : ℕ → ℕ → String → Action Db PolicyVersion
  approve_policy now version_id reason = transition_status now version_id reason approved

  -- The flush of a new activation.
  pub add_activation : PolicyActivation → Action Db PolicyActivation
  unfolding bounded
  add_activation a = do
    refused ← gets (λ db. not (bounded a) || any (clashes a) db.policy_activations)
    raise_if refused integrity_error
    insert activations p.institution_id a

  pub activate_policy : ℕ → ℕ → ℕ → String → ℕ → Option ℕ → Action Db PolicyActivation
  activate_policy new_id now version_id reason starts_at ends_at = do
    version ← transition_status now version_id reason active
    add_activation (record {
      id = new_id;
      institution_id = p.institution_id;
      policy_version_id = version_id;
      academic_year_id = version.academic_year_id;
      scope = version.scope;
      starts_at = starts_at;
      ends_at = ends_at;
    })

  abbrev is_open_ended : Option ℕ → Bool
  is_open_ended none = true
  is_open_ended (some ends_at) = false

  -- The update of an open activation; its interval must not become empty.
  close_activation : ℕ → Option PolicyActivation → Action Db Unit
  close_activation now none = pure tt
  close_activation now (some a) = do
    raise_if (not (ltb a.starts_at now)) integrity_error
    update activations p.institution_id (λ x. record x { ends_at = some now }) a
    pure tt

  abbrev open_for : ℕ → PolicyActivation → Bool
  open_for version_id a =
      a.institution_id == p.institution_id
      && a.policy_version_id == version_id
      && is_open_ended a.ends_at

  -- What `archive_policy` does after the transition.
  close_version : ℕ → ℕ → Action Db Unit
  unfolding close_activation
  close_version now version_id = do
    activation ← (λ db. (one_or_none (keep (open_for version_id) db.policy_activations), db))
    close_activation now activation

  pub archive_policy : ℕ → ℕ → String → Action Db PolicyVersion
  unfolding close_version
  archive_policy now version_id reason = do
    version ← transition_status now version_id reason archived
    close_version now version_id
    pure version
