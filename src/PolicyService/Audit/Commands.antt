-- ===== src/PolicyService/Audit/Commands.antt =====
-- The commands of the policy service, one after another.
use placement_assistant.Prelude.{
  ℕ, String, false, not, ◌≡◌, refl, sym, ap, Option, [], keep, any, arith, Bool-cases, inl, inr,
  ◌==◌, Result, ok, err, Respects, IsPreorder, Respects-bind, Respects-pure,
}
use placement_assistant.Value.{Fields}
use placement_assistant.Database.{
  Db, Principal, PolicyStatus, PolicyVersion, PolicyEvent, PolicyActivation,
}
use placement_assistant.Repositories.{insert, update, exists_row, get_by_id}
use placement_assistant.Repositories.Tables.{policies}
use placement_assistant.PolicyService.Transition.{
  transition_status-IsTransition, transition_status_unchanged,
}
use placement_assistant.PolicyService.Audit.{IsAudited, transition-IsAudited, created-IsAudited}
use placement_assistant.PolicyService.{
  VersionDraft, create_policy, create_policy_version, add_policy_rule, transition_status,
  approve_policy, activate_policy, archive_policy, add_activation, close_version, close_activation,
}

pub data PolicyCommand : Type 0 where
  create : ℕ → String → String → PolicyCommand
  create_version : ℕ → ℕ → ℕ → VersionDraft → PolicyCommand
  add_rule : ℕ → ℕ → String → Fields → PolicyCommand
  transition : ℕ → ℕ → String → PolicyStatus → PolicyCommand
  approve : ℕ → ℕ → String → PolicyCommand
  activate : ℕ → ℕ → ℕ → String → ℕ → Option ℕ → PolicyCommand
  archive : ℕ → ℕ → String → PolicyCommand

-- What a command leaves, whether it returns or raises.
unfoldable pub carry_out : Principal → PolicyCommand → Db → Db
carry_out p (create id code name) db = (create_policy p id code name db).1
carry_out p (create_version id now policy_id given) db =
    (create_policy_version p id now policy_id given db).1
carry_out p (add_rule id version_id code definition) db =
    (add_policy_rule p id version_id code definition db).1
carry_out p (transition now version_id reason target) db =
    (transition_status p now version_id reason target db).1
carry_out p (approve now version_id reason) db = (approve_policy p now version_id reason db).1
carry_out p (activate id now version_id reason starts_at ends_at) db =
    (activate_policy p id now version_id reason starts_at ends_at db).1
carry_out p (archive now version_id reason) db = (archive_policy p now version_id reason db).1

-- The id of a new version: no version has it, and no event names it.
abbrev pub IsNew : PolicyCommand → Db → Type 0
IsNew (create_version id now policy_id given) db =
    (any (λ (v : PolicyVersion). v.id == id) db.policy_versions ≡ false)
    × (any (λ (e : PolicyEvent). e.policy_version_id == id) db.policy_events ≡ false)
IsNew _ db = Unit

-- What commands, by any users and in any order, make of a database without policy versions.
pub data Reached : Db → Type 0 where
  start : (db : Db) → db.policy_versions ≡ [] → db.policy_events ≡ [] → Reached db
  next :
      (p : Principal) (c : PolicyCommand) (db : Db)
      → Reached db
      → IsNew c db
      → Reached (carry_out p c db)

abbrev Keeps : Db → Db → Type 0
Keeps s t = IsAudited s → IsAudited t

Keeps-preorder : IsPreorder Keeps
Keeps-preorder = record {
  reflexive = λ s h. h;
  transitive = λ s t u first later h. later (first h);
}

-- A step that writes neither versions nor events.
untouched :
    (s t : Db)
    → t.policy_versions ≡ s.policy_versions
    → t.policy_events ≡ s.policy_events
    → Keeps s t
untouched s t same_versions same_events h = record {
  key = rw same_versions h.key;
  lives = rw (same_versions, same_events) h.lives;
}

module _ (p : Principal) (now version_id : ℕ) (reason : String) (target : PolicyStatus) where
  settled :
      (s : Db) (r : Result PolicyVersion × Db)
      → transition_status p now version_id reason target s ≡ r
      → Keeps s r.1
  settled s (ok v, t) h audited =
      transition-IsAudited p now version_id reason target s v t
        (transition_status-IsTransition p now version_id reason target s v t h) audited
  settled s (err e, t) h audited =
      rw
        (
          sym (ap (λ r. r.1) h),
          transition_status_unchanged p now version_id reason target s e (ap (λ r. r.0) h),
        )
        audited

  transition-Keeps : Respects Keeps (transition_status p now version_id reason target)
  transition-Keeps = record { at = λ s. settled s _ refl }

module _ (p : Principal) where
  create_policy-Keeps :
      (id : ℕ) (code name : String) → Respects Keeps (create_policy p id code name)
  unfolding create_policy insert
  create_policy-Keeps id code name = record {
    at = λ s. untouched s _ (ground arith) (ground arith);
  }

  add_policy_rule-Keeps :
      (id version_id : ℕ) (code : String) (definition : Fields)
      → Respects Keeps (add_policy_rule p id version_id code definition)
  unfolding add_policy_rule insert get_by_id
  add_policy_rule-Keeps id version_id code definition = record {
    at = λ s. untouched s _ (ground arith) (ground arith);
  }

  add_activation-Keeps : (a : PolicyActivation) → Respects Keeps (add_activation p a)
  unfolding add_activation insert
  add_activation-Keeps a = record { at = λ s. untouched s _ (ground arith) (ground arith) }

  close_version-Keeps : (now version_id : ℕ) → Respects Keeps (close_version p now version_id)
  unfolding close_version close_activation update
  close_version-Keeps now version_id = record {
    at = λ s. untouched s _ (ground arith) (ground arith);
  }

  activate_policy-Keeps :
      (id now version_id : ℕ) (reason : String) (starts_at : ℕ) (ends_at : Option ℕ)
      → Respects Keeps (activate_policy p id now version_id reason starts_at ends_at)
  unfolding activate_policy
  activate_policy-Keeps id now version_id reason starts_at ends_at =
      Respects-bind Keeps-preorder _ _
        (transition-Keeps p now version_id reason PolicyStatus.active) λ v. add_activation-Keeps _

  archive_policy-Keeps :
      (now version_id : ℕ) (reason : String)
      → Respects Keeps (archive_policy p now version_id reason)
  unfolding archive_policy
  archive_policy-Keeps now version_id reason =
      Respects-bind Keeps-preorder _ _
        (transition-Keeps p now version_id reason PolicyStatus.archived)
        λ v.
          Respects-bind Keeps-preorder _ _ (close_version-Keeps now version_id)
            λ _. Respects-pure Keeps-preorder v

  create_policy_version-IsAudited :
      (id now policy_id : ℕ) (given : VersionDraft) (db : Db)
      → IsNew (create_version id now policy_id given) db
      → IsAudited db
      → IsAudited (create_policy_version p id now policy_id given db).1
  unfolding create_policy_version insert
  create_policy_version-IsAudited id now policy_id given db new h =
      elim (Bool-cases (not (exists_row policies p.institution_id policy_id db))) [
        | inl missing ↦ rw missing h
        | inr known ↦ elim (Bool-cases (given.schema_version == 0)) [
          | inl unversioned ↦ rw (known, unversioned) h
          | inr versioned ↦
              rw (known, versioned)
                (created-IsAudited p now id "Initial draft created" _ db _ refl refl refl new.0
                  new.1 refl refl h)
        ]
      ]

  carry_out-Keeps : (c : PolicyCommand) (db : Db) → IsNew c db → Keeps db (carry_out p c db)
  unfolding carry_out approve_policy
  carry_out-Keeps (create id code name) db new = (create_policy-Keeps id code name).at db
  carry_out-Keeps (create_version id now policy_id given) db new =
      create_policy_version-IsAudited id now policy_id given db new
  carry_out-Keeps (add_rule id version_id code definition) db new =
      (add_policy_rule-Keeps id version_id code definition).at db
  carry_out-Keeps (transition now version_id reason target) db new =
      (transition-Keeps p now version_id reason target).at db
  carry_out-Keeps (approve now version_id reason) db new =
      (transition-Keeps p now version_id reason PolicyStatus.approved).at db
  carry_out-Keeps (activate id now version_id reason starts_at ends_at) db new =
      (activate_policy-Keeps id now version_id reason starts_at ends_at).at db
  carry_out-Keeps (archive now version_id reason) db new =
      (archive_policy-Keeps now version_id reason).at db

-- Whatever commands the policy service is given, by any users and in any order, whether they return or
-- raise, where the id of a new version is unused: the events of each version tell its whole life. They are
-- the creation and each transition that led to the version's status, once and in order, numbered from 1 on
-- without a gap. No two versions have one id.
pub reached-IsAudited : (db : Db) → Reached db → IsAudited db
unfolding keep
reached-IsAudited db (start _ no_versions no_events) = record {
  key = λ id. rw no_versions (omega arith);
  lives = rw no_versions tt;
}
reached-IsAudited _ (next p c db before new) =
    carry_out-Keeps p c db new (reached-IsAudited db before)
