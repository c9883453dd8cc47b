-- ===== src/BindingService/Tests.antt =====
-- A proposal, its approval, the same request again, and a revocation.
use placement_assistant.Prelude.{
  ℕ, [], ◌∷◌, some, none, ok, err, evidence, ◌≡◌, refl, ap, ◌⊎◌, arith,
}
use placement_assistant.Database.Sample.{anna, carla}
use placement_assistant.Evidence.{BindingState}
use placement_assistant.Rag.{Rag, RagPolicySource, RagBindingEvent, RagSourceObject, Bytes}
use placement_assistant.Rag.Sample.{digest, ready, hash_a}
use placement_assistant.BindingService.History.{
  Command, proposing, approving, revoking, perform_all-Histories, perform-status,
}
use placement_assistant.BindingService.History.Grow.{Histories, status, ◌⟶◌}
use placement_assistant.BindingService.Retry.{transition_repeated}
use placement_assistant.BindingService.Approval.{approve-IsVerified}
use placement_assistant.BindingService.{BindingView}
use placement_assistant.Evidence.{validate_binding_transition, verify_source}
use placement_assistant.Evidence.Text.{
  text_length, is_space, is_present, is_hex, all_hex, hex_digit, hex_digits, hex, ◌+++◌,
}
use placement_assistant.Evidence.Identity.{validate_hash, source_identity, object_key}
use placement_assistant.SourceService.Storage.{
  take, object_at, is_unreadable, is_unwritable, is_unsynced, read_verified, link_or_verify,
  preserve,
}
use placement_assistant.SourceService.{
  is_staff_role, agrees, is_document, document_identity, is_source_of, get, recording, import_as,
  import_matching_bytes, read_for_review,
}
use placement_assistant.BindingService.Triggers.{
  is_hash, is_filled, is_binding, is_event_of, events_of, last_sequence, sequence_state,
  insert_event, is_revision_of, guard_revision, first_event, insert_binding,
}
use placement_assistant.BindingService.Repository.{
  require_policy, source, binding, object_of, document_of, proposal_request, has_request,
  event_request, latest_revision, events, revision_row, insert_revision, event_row, append_event,
}
use placement_assistant.BindingService.{
  view_of, same_state, refuse_if, require_staff, validate_reason, view, inspect, other_proposal,
  require_closed, plan_revision, plan_proposal, other_event, legal, review, prepare_proposal,
  carry_proposal, propose, verify_current, plan_event, prepare_event, carry_event, transition,
  approve, revoke,
}
use placement_assistant.BindingService.History.{committed, perform, perform_all}
use placement_assistant.Database.{one_or_none, greatest, insert_row, ascending}
use placement_assistant.Prelude.{keep, find, any, last}

-- Stands for all the definitions that a run computes with.
unfoldable everything : Unit {0}
unfolding validate_binding_transition verify_source text_length is_space is_present is_hex all_hex
    hex_digit hex_digits hex ◌+++◌ validate_hash source_identity object_key take object_at
    is_unreadable is_unwritable is_unsynced read_verified link_or_verify preserve is_staff_role
    agrees is_document document_identity is_source_of get recording import_as import_matching_bytes
    read_for_review is_hash is_filled is_binding is_event_of events_of last_sequence sequence_state
    insert_event is_revision_of guard_revision first_event insert_binding require_policy source
    binding object_of document_of proposal_request has_request event_request latest_revision events
    revision_row insert_revision event_row append_event view_of same_state refuse_if require_staff
    validate_reason view inspect other_proposal require_closed plan_revision plan_proposal
    other_event legal review prepare_proposal carry_proposal propose verify_current plan_event
    prepare_event carry_event transition approve revoke committed perform perform_all one_or_none
    greatest insert_row ascending keep find any last
everything = tt

abbrev proposal : Command
proposal = proposing carla 60 7 4 500 "rules of the season"

abbrev proposed : Rag
proposed = perform digest proposal ready

run_proposed : status 1 60 proposed ≡ some BindingState.proposed
unfolding everything
run_proposed = refl

-- A student may not propose.
run_student : (propose anna digest 60 7 4 500 "rules" ready).0 ≡ err (evidence "FORBIDDEN")
unfolding everything
run_student = refl

run_all :
    status 1 60 (
      perform_all digest
        (proposal
          ∷ approving carla 60 501 "checked"
          ∷ revoking carla 60 502 "outdated"
          ∷ approving carla 60 503 "again"
          ∷ [])
        ready)
    ≡ some BindingState.revoked
unfolding everything
run_all = refl

ready-Histories : Histories ready
unfolding events_of keep
ready-Histories i b = (tt, omega arith)

perform_all-Histories_example :
    Histories (perform_all digest (proposal ∷ approving carla 60 501 "checked" ∷ []) ready)
perform_all-Histories_example =
    perform_all-Histories digest (proposal ∷ approving carla 60 501 "checked" ∷ []) ready
      ready-Histories

perform-status_example :
    (status 1 60 proposed ≡ status 1 60 ready) ⊎ (status 1 60 ready ⟶ status 1 60 proposed)
perform-status_example = perform-status digest proposal ready ready-Histories 1 60

abbrev row : RagPolicySource
row = record {
  id = 60;
  institution_id = 1;
  source_object_id = 50;
  policy_version_id = 4;
  revision = 1;
  previous_revision_id = none;
  source_hash = hash_a;
  proposal_reason = "rules of the season";
  actor_id = 13;
  request_id = 500;
}

abbrev event : BindingState → ℕ → ℕ → RagBindingEvent
event state sequence request_id = record {
  institution_id = 1;
  binding_id = 60;
  sequence = sequence;
  status = state;
  source_hash = hash_a;
  reason = "rules of the season";
  actor_id = 13;
  request_id = request_id;
}

abbrev approved_view : BindingView
approved_view = record {
  row = row;
  events = event BindingState.proposed 1 500 ∷ event BindingState.approved 2 501 ∷ [];
  state = BindingState.approved;
}

run_approved : (approve carla digest 60 501 "rules of the season" proposed).0 ≡ ok approved_view
unfolding everything
run_approved = refl

abbrev approved : Rag
approved = (approve carla digest 60 501 "rules of the season" proposed).1

transition_repeated_example :
    transition carla digest 60 BindingState.approved 501 "rules of the season" approved
    ≡ (ok approved_view, approved)
unfolding approve
transition_repeated_example =
    transition_repeated carla digest 60 BindingState.approved 501 "rules of the season" proposed
      approved approved_view (ap (λ r. (r, approved)) run_approved)

run_fresh : event_request 1 501 proposed ≡ none
unfolding everything
run_fresh = refl

approve-IsVerified_example :
    (b : RagPolicySource) × (object : RagSourceObject) × (bytes : Bytes) × (binding 1 60 proposed
      ≡ ok b)
    × (document_of 1 b.source_object_id proposed ≡ ok object)
    × ((read_for_review carla digest object.document_id proposed).0 ≡ ok bytes)
    × (digest bytes ≡ b.source_hash)
approve-IsVerified_example =
    approve-IsVerified carla digest 60 501 "rules of the season" proposed approved approved_view
      (ap (λ r. (r, approved)) run_approved) run_fresh
