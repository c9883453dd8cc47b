-- ===== src/BindingService.antt =====
-- apps/api/app/rag/binding_service.py: staff propose, approve and revoke the use of a source for a
-- version of a policy. A call first reads and checks, which changes nothing, and then writes one row,
-- or, when its request was made before, none.
pub mod Triggers
pub mod Repository
pub mod History
pub mod Steps
pub mod Retry
pub mod Approval
mod Tests
use placement_assistant.Prelude.{
  ℕ, ◌+◌, String, Bool, true, false, not, ◌&&◌, ◌||◌, Option, none, some, List, length, last,
  Result, ok, err, Action, pure, evidence, ltb, ◌==◌, str_eq, if◌then◌else◌, continue,
}
use placement_assistant.Prelude.Reading.{Reading, ◌>>=◌, ◌>>◌, give, ask, found_or, on_ok}
use placement_assistant.Database.{Principal}
use placement_assistant.Evidence.{BindingState, validate_binding_transition}
use placement_assistant.Evidence.Text.{text_length, is_present}
use placement_assistant.Rag.{Rag, Bytes, RagPolicySource, RagBindingEvent, RagSourceObject}
use placement_assistant.SourceService.{is_staff_role, read_for_review}
use placement_assistant.BindingService.Repository.{
  require_policy, source, binding, document_of, proposal_request, event_request, latest_revision,
  events, insert_revision, append_event,
}

-- BindingView, with the row that its columns come from; `state` is its property of that name.
pub record BindingView : Type 0 where
  pub row : RagPolicySource
  pub events : List RagBindingEvent
  pub state : BindingState

unfoldable pub view_of :
    RagPolicySource → List RagBindingEvent → Option RagBindingEvent → Result BindingView
view_of b history none = err (evidence "BINDING_HISTORY_INVALID")
view_of b history (some e) = ok record { row = b; events = history; state = e.status }

-- What a call has found: that its request was made before, with the current view; or a row to write.
pub data Plan (A : Type 0) : Type 0 where
  repeated : BindingView → Plan A
  write : A → Plan A

unfoldable pub same_state : BindingState → BindingState → Bool
same_state BindingState.proposed BindingState.proposed = true
same_state BindingState.approved BindingState.approved = true
same_state BindingState.revoked BindingState.revoked = true
same_state _ _ = false

-- raise EvidenceError(code) when the condition holds
unfoldable pub refuse_if : Bool → String → Reading Rag Unit
refuse_if true code s = err (evidence code)
refuse_if false code s = ok tt

module _ (principal : Principal) where
  abbrev tenant : ℕ
  tenant = principal.institution_id

  unfoldable pub require_staff : Reading Rag Unit
  require_staff = refuse_if (not (is_staff_role principal.role)) "FORBIDDEN"

  unfoldable pub validate_reason : String → Reading Rag Unit
  validate_reason reason =
      refuse_if (not (is_present reason) || ltb 1000 (text_length reason)) "INVALID_BINDING_REASON"

  unfoldable pub view : RagPolicySource → Reading Rag BindingView
  view b s = let history = events tenant b.id s in view_of b history (last history)

  unfoldable pub inspect : ℕ → Reading Rag BindingView
  inspect binding_id = do require_staff; b ← binding tenant binding_id; view b

  unfoldable pub other_proposal : RagSourceObject → ℕ → String → RagPolicySource → Bool
  other_proposal source_object policy_version_id reason existing =
      not (existing.source_object_id == source_object.id)
      || not (existing.policy_version_id == policy_version_id)
      || not (existing.actor_id == principal.sub)
      || not (str_eq existing.proposal_reason reason)

  unfoldable pub require_closed : Option RagPolicySource → Reading Rag Unit
  require_closed none = give tt
  require_closed (some previous) = do
    current ← view previous
    refuse_if (not (same_state current.state BindingState.revoked)) "BINDING_REVISION_STILL_OPEN"

  unfoldable pub plan_revision :
      RagSourceObject → ℕ → Reading Rag (Plan (RagSourceObject × Option RagPolicySource))
  plan_revision source_object policy_version_id = do
    previous ← ask (latest_revision tenant source_object.id policy_version_id)
    require_closed previous
    give (write (source_object, previous))

  unfoldable pub plan_proposal :
      RagSourceObject
      → ℕ
      → String
      → Option RagPolicySource
      → Reading Rag (Plan (RagSourceObject × Option RagPolicySource))
  plan_proposal source_object policy_version_id reason none =
      plan_revision source_object policy_version_id
  plan_proposal source_object policy_version_id reason (some existing) = do
    refuse_if (other_proposal source_object policy_version_id reason existing)
        "IDEMPOTENCY_CONFLICT"
    current ← view existing
    give (repeated current)

  unfoldable pub other_event : ℕ → BindingState → String → RagBindingEvent → Bool
  other_event binding_id target reason existing =
      not (existing.binding_id == binding_id)
      || not (same_state existing.status target)
      || not (existing.actor_id == principal.sub)
      || not (str_eq existing.reason reason)

  unfoldable pub legal : BindingState → BindingState → Reading Rag Unit
  legal current target s = validate_binding_transition current target

  module _ (sha256 : Bytes → String) where
    -- SourceService.read_for_review, which leaves the state as it is
    unfoldable pub review : ℕ → Reading Rag Bytes
    review document_id s = (read_for_review principal sha256 document_id s).0

    unfoldable pub prepare_proposal :
        ℕ → ℕ → ℕ → String → Reading Rag (Plan (RagSourceObject × Option RagPolicySource))
    prepare_proposal document_id policy_version_id request_id reason = do
      require_staff
      validate_reason reason
      require_policy tenant policy_version_id
      review document_id
      source_object ← source tenant document_id
      existing ← ask (proposal_request tenant request_id)
      plan_proposal source_object policy_version_id reason existing

    unfoldable pub carry_proposal :
        ℕ
        → ℕ
        → ℕ
        → String
        → Plan (RagSourceObject × Option RagPolicySource)
        → Action Rag BindingView
    carry_proposal new_id policy_version_id request_id reason (repeated current) s = (ok current, s)
    carry_proposal new_id policy_version_id request_id reason (write (source_object, previous)) s =
        let (r, t) =
          insert_revision tenant new_id source_object policy_version_id previous principal.sub
            request_id reason s in
        continue r (λ b u. (view b u, u)) t

    unfoldable pub propose : ℕ → ℕ → ℕ → ℕ → String → Action Rag BindingView
    propose new_id document_id policy_version_id request_id reason s =
        continue (prepare_proposal document_id policy_version_id request_id reason s)
          (carry_proposal new_id policy_version_id request_id reason) s

    -- The source that is to be approved, read and compared.
    unfoldable pub verify_current : RagPolicySource → BindingState → Reading Rag Unit
    verify_current b BindingState.approved = do
      object ← document_of tenant b.source_object_id
      review object.document_id
      current ← source tenant object.document_id
      refuse_if (not (str_eq current.source_hash b.source_hash)) "SOURCE_METADATA_MISMATCH"
    verify_current b _ = give tt

    unfoldable pub plan_event :
        ℕ
        → RagPolicySource
        → BindingState
        → String
        → BindingView
        → Option RagBindingEvent
        → Reading Rag (Plan (RagPolicySource × ℕ))
    plan_event binding_id b target reason current none = do
      legal current.state target
      verify_current b target
      give (write (b, length current.events + 1))
    plan_event binding_id b target reason current (some existing) = do
      refuse_if (other_event binding_id target reason existing) "IDEMPOTENCY_CONFLICT"
      give (repeated current)

    unfoldable pub prepare_event :
        ℕ → BindingState → ℕ → String → Reading Rag (Plan (RagPolicySource × ℕ))
    prepare_event binding_id target request_id reason = do
      require_staff
      validate_reason reason
      b ← binding tenant binding_id
      current ← view b
      existing ← ask (event_request tenant request_id)
      plan_event binding_id b target reason current existing

    unfoldable pub carry_event :
        BindingState → ℕ → String → Plan (RagPolicySource × ℕ) → Action Rag BindingView
    carry_event target request_id reason (repeated current) s = (ok current, s)
    carry_event target request_id reason (write (b, sequence)) s =
        let (r, t) = append_event tenant b sequence target principal.sub request_id reason s in
        continue r (λ _ u. (view b u, u)) t

    unfoldable pub transition : ℕ → BindingState → ℕ → String → Action Rag BindingView
    transition binding_id target request_id reason s =
        continue (prepare_event binding_id target request_id reason s)
          (carry_event target request_id reason) s

    unfoldable pub approve : ℕ → ℕ → String → Action Rag BindingView
    approve binding_id = transition binding_id BindingState.approved

    unfoldable pub revoke : ℕ → ℕ → String → Action Rag BindingView
    revoke binding_id = transition binding_id BindingState.revoked
