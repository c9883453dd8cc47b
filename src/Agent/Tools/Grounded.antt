-- ===== src/Agent/Tools/Grounded.antt =====
-- What a run of the agent tells a student is what the eligibility service decided of that student.
use placement_assistant.Prelude.{
  ℕ, String, ◌≡◌, ◌⊎◌, inl, inr, List, subst, some, ok, continue-inversion,
}
use placement_assistant.Value.{Value}
use placement_assistant.Database.{Db, Principal, EligibilityDecision}
use placement_assistant.EligibilityService.Snapshot.{Context}
use placement_assistant.EligibilityService.Outcome.{Contains, IsOutcome, evaluate-IsOutcome}
use placement_assistant.Agent.Memory.{Draft, add_message, owned_student}
use placement_assistant.Agent.Memory.Ownership.{
  db-owned_student, IsOwnStudent, owned_student-IsOwnStudent,
}
use placement_assistant.Agent.Tools.Applicable.{IsApplicable, active_requirement-IsApplicable}
use placement_assistant.Agent.Authority.{EligibilityDecisionResponse}
use placement_assistant.Agent.Turn.{World, Tool}
use placement_assistant.Agent.Orchestrator.{begin}
use placement_assistant.Agent.Tools.{active_requirement, evaluate_m5, response_of}

-- Whose decision a row is: made for this student, opportunity and requirement version, or a row that
-- was stored already, before the call or by another request meanwhile.
abbrev pub IsWhose : ℕ → ℕ → ℕ → List EligibilityDecision → EligibilityDecision → Type 0
IsWhose student_id opportunity_id requirement_id stored row =
    ((row.student_id ≡ student_id)
      × (row.opportunity_id ≡ opportunity_id)
      × (row.requirement_version_id ≡ requirement_id))
    ⊎ Contains stored row

-- An evaluation of the caller's own student record, for a requirement version that applies.
pub record IsOwnEvaluation (context : Context) (meanwhile : Db → Db) (p : Principal)
    (opportunity_id : ℕ) (before : Db) (row : EligibilityDecision) (after : Db) : Type 0 where
  pub student_id : ℕ
  pub requirement_id : ℕ
  pub own : IsOwnStudent p before student_id
  pub applicable : IsApplicable p context.now opportunity_id before requirement_id
  pub outcome :
      IsOutcome context p student_id opportunity_id requirement_id meanwhile before row after
  pub whose :
      IsWhose student_id opportunity_id requirement_id before.decisions row
      ⊎ Contains (meanwhile before).decisions row

IsOutcome-IsWhose :
    (context : Context) (p : Principal) (student_id opportunity_id requirement_id : ℕ)
    (meanwhile : Db → Db) (before : Db) (row : EligibilityDecision) (after : Db)
    → IsOutcome context p student_id opportunity_id requirement_id meanwhile before row after
    → IsWhose student_id opportunity_id requirement_id before.decisions row
      ⊎ Contains (meanwhile before).decisions row
IsOutcome-IsWhose context p student_id opportunity_id requirement_id meanwhile before row after o =
    elim o.how [
      | inl unchanged ↦
          inl (inr (subst (λ (db : Db). Contains db.decisions row) unchanged o.stored))
      | inr (inl others) ↦ inr (subst (λ (db : Db). Contains db.decisions row) others o.stored)
      | inr (inr new) ↦ inl (inl (new.student, new.opportunity, new.requirement_version))
    ]

pub evaluate_m5-IsOwnEvaluation :
    (context : Context) (meanwhile : Db → Db) (p : Principal) (opportunity_id : ℕ) (before : Db)
    (row : EligibilityDecision) (after : Db)
    → evaluate_m5 context meanwhile p opportunity_id before ≡ (ok row, after)
    → IsOwnEvaluation context meanwhile p opportunity_id before row after
unfolding evaluate_m5
evaluate_m5-IsOwnEvaluation context meanwhile p opportunity_id before row after h =
    let (student_id, own, h1) =
      continue-inversion (owned_student p before).0 _ (owned_student p before).1 after row h in
    let there = rw db-owned_student at h1 in
    let (requirement_id, applicable, h2) =
      continue-inversion (active_requirement p context.now opportunity_id before) _ before after row
        there in
    let outcome =
      evaluate-IsOutcome context p student_id opportunity_id requirement_id meanwhile before row
        after h2 in
    record {
      student_id = student_id;
      requirement_id = requirement_id;
      own = owned_student-IsOwnStudent p before student_id own;
      applicable =
          active_requirement-IsApplicable p context.now opportunity_id before requirement_id
            applicable;
      outcome = outcome;
      whose =
          IsOutcome-IsWhose context p student_id opportunity_id requirement_id meanwhile before row
            after outcome;
    }

-- The states of the database in a run: after its beginning, after a message that it stored, and after
-- a registered tool that it called.
pub data IsReached (w : World) (p : Principal) (conversation_id : ℕ) (query : String) (db : Db)
    : Db → Type 0 where
  begun : IsReached w p conversation_id query db (begin w p conversation_id query db).1
  remembered :
      (draft : Draft) (s : Db)
      → IsReached w p conversation_id query db s
      → IsReached w p conversation_id query db (add_message p conversation_id w.now draft s).1
  called :
      (name : String) (run : Tool) (args : Value) (s : Db)
      → w.registry name ≡ some run
      → IsReached w p conversation_id query db s
      → IsReached w p conversation_id query db (run args s).1

-- A decision that an evaluation of the caller returned during the run.
pub record IsGrounded (context : Db → Context) (meanwhile : Db → Db → Db) (p : Principal)
    (w : World) (conversation_id : ℕ) (query : String) (db : Db) (d : EligibilityDecisionResponse)
    : Type 0 where
  pub before : Db
  pub reached : IsReached w p conversation_id query db before
  pub after : Db
  pub opportunity_id : ℕ
  pub row : EligibilityDecision
  pub says : d ≡ response_of row
  pub evaluated :
      IsOwnEvaluation (context before) (meanwhile before) p opportunity_id before row after
