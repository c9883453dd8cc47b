-- ===== src/BindingService/Repository.antt =====
-- apps/api/app/rag/binding_repository.py, of one institution. `scalar` gives the first row, or
-- nothing.
use placement_assistant.Prelude.{
  ℕ, ◌+◌, String, Bool, false, not, ◌&&◌, ◌||◌, Option, none, some, List, find, keep, any, Action,
  ◌>>◌, pure, raise_if, evidence, ◌==◌, if◌then◌else◌,
}
use placement_assistant.Prelude.Reading.{Reading, found_or}
use placement_assistant.Database.{greatest, ascending}
use placement_assistant.Evidence.{BindingState}
use placement_assistant.Rag.{Rag, RagPolicySource, RagBindingEvent, RagSourceObject}
use placement_assistant.BindingService.Triggers.{
  is_binding, events_of, is_revision_of, insert_event, insert_binding,
}

module _ (institution_id : ℕ) where
  unfoldable pub require_policy : ℕ → Reading Rag Unit
  require_policy policy_version_id s =
      found_or (evidence "POLICY_NOT_FOUND")
        (if any (λ v. v.institution_id == institution_id && v.id == policy_version_id)
            s.policy_versions
          then some tt
          else none)
        s

  unfoldable pub source : ℕ → Reading Rag RagSourceObject
  source document_id s =
      found_or (evidence "SOURCE_UNAVAILABLE")
        (find (λ r. r.institution_id == institution_id && r.document_id == document_id)
          s.source_objects)
        s

  unfoldable pub binding : ℕ → Reading Rag RagPolicySource
  binding binding_id s =
      found_or (evidence "BINDING_NOT_FOUND")
        (find (is_binding institution_id binding_id) s.policy_sources) s

  unfoldable pub object_of : ℕ → RagSourceObject → Bool
  object_of source_object_id r = r.institution_id == institution_id && r.id == source_object_id

  unfoldable pub document_of : ℕ → Reading Rag RagSourceObject
  document_of source_object_id s =
      found_or (evidence "SOURCE_UNAVAILABLE") (find (object_of source_object_id) s.source_objects)
        s

  unfoldable pub proposal_request : ℕ → Rag → Option RagPolicySource
  proposal_request request_id s =
      find (λ b. b.institution_id == institution_id && b.request_id == request_id) s.policy_sources

  unfoldable pub has_request : ℕ → RagBindingEvent → Bool
  has_request request_id e = e.institution_id == institution_id && e.request_id == request_id

  unfoldable pub event_request : ℕ → Rag → Option RagBindingEvent
  event_request request_id s = find (has_request request_id) s.binding_events

  unfoldable pub latest_revision : ℕ → ℕ → Rag → Option RagPolicySource
  latest_revision source_object_id policy_version_id s =
      greatest (λ r. r.revision)
        (keep (is_revision_of institution_id source_object_id policy_version_id) s.policy_sources)

  unfoldable pub events : ℕ → Rag → List RagBindingEvent
  events binding_id s = ascending (λ e. e.sequence) (events_of institution_id binding_id s)

  abbrev next_revision : Option RagPolicySource → ℕ
  next_revision none = 1
  next_revision (some b) = b.revision + 1

  abbrev previous_id : Option RagPolicySource → Option ℕ
  previous_id none = none
  previous_id (some b) = some b.id

  abbrev pub is_foreign : Option RagPolicySource → Bool
  is_foreign none = false
  is_foreign (some b) = not (b.institution_id == institution_id)

  unfoldable pub revision_row :
      ℕ → RagSourceObject → ℕ → Option RagPolicySource → ℕ → ℕ → String → RagPolicySource
  revision_row new_id source_object policy_version_id previous actor_id request_id reason = record {
    id = new_id;
    institution_id = institution_id;
    source_object_id = source_object.id;
    policy_version_id = policy_version_id;
    revision = next_revision previous;
    previous_revision_id = previous_id previous;
    source_hash = source_object.source_hash;
    proposal_reason = reason;
    actor_id = actor_id;
    request_id = request_id;
  }

  unfoldable pub insert_revision :
      ℕ → RagSourceObject → ℕ → Option RagPolicySource → ℕ → ℕ → String → Action Rag RagPolicySource
  insert_revision new_id source_object policy_version_id previous actor_id request_id reason = do
    raise_if (not (source_object.institution_id == institution_id) || is_foreign previous)
        (evidence "BINDING_NOT_FOUND")
    let row =
        revision_row new_id source_object policy_version_id previous actor_id request_id reason
    insert_binding row
    pure row

  unfoldable pub event_row : RagPolicySource → ℕ → BindingState → ℕ → ℕ → String → RagBindingEvent
  event_row b sequence status actor_id request_id reason = record {
    institution_id = institution_id;
    binding_id = b.id;
    sequence = sequence;
    status = status;
    source_hash = b.source_hash;
    reason = reason;
    actor_id = actor_id;
    request_id = request_id;
  }

  unfoldable pub append_event :
      RagPolicySource → ℕ → BindingState → ℕ → ℕ → String → Action Rag Unit
  append_event b sequence status actor_id request_id reason = do
    raise_if (not (b.institution_id == institution_id)) (evidence "BINDING_NOT_FOUND")
    insert_event (event_row b sequence status actor_id request_id reason)
