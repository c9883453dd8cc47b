-- ===== src/BindingService/Triggers.antt =====
-- What the database does with a new row of rag_policy_sources or rag_binding_events: the triggers and
-- the constraints of apps/api/migrations/versions/d72e620b7302_m6_binding_lifecycle.py. A row that is
-- refused raises.
use Prim.Native.Char.{code}
use placement_assistant.Prelude.{
  ℕ, ◌+◌, String, Bool, true, false, not, ◌&&◌, ◌||◌, Option, none, some, List, [], ◌∷◌, ◌++◌, find,
  keep, any, Action, ◌>>=◌, ◌>>◌, raise_if, gets, modify, database, integrity_error, ltb, ◌==◌,
  str_eq, opt_eq, if◌then◌else◌,
}
use placement_assistant.Database.{greatest}
use placement_assistant.Evidence.{BindingState}
use placement_assistant.Evidence.Text.{text_length, all_hex}
use placement_assistant.Rag.{Rag, RagPolicySource, RagBindingEvent, RagSourceObject}

-- value ~ '^[0-9a-f]{64}$'
unfoldable pub is_hash : String → Bool
is_hash value = text_length value == 64 && all_hex value

-- length(trim(value)) > 0
unfoldable pub is_filled : String → Bool
is_filled String.[] = false
is_filled (String.◌∷◌ c s) = not (code c == 32) || is_filled s

unfoldable pub is_binding : ℕ → ℕ → RagPolicySource → Bool
is_binding institution_id id b = b.institution_id == institution_id && b.id == id

unfoldable pub is_event_of : ℕ → ℕ → RagBindingEvent → Bool
is_event_of institution_id binding_id e =
    e.institution_id == institution_id && e.binding_id == binding_id

unfoldable pub events_of : ℕ → ℕ → Rag → List RagBindingEvent
events_of institution_id binding_id s =
    keep (is_event_of institution_id binding_id) s.binding_events

-- COALESCE(MAX(sequence), 0)
unfoldable pub last_sequence : List RagBindingEvent → ℕ
last_sequence [] = 0
last_sequence (e ∷ es) =
    let rest = last_sequence es in if ltb rest e.sequence then e.sequence else rest

-- event_sequence_state
unfoldable pub sequence_state : ℕ → BindingState → Bool
sequence_state sequence BindingState.proposed = sequence == 1
sequence_state sequence BindingState.approved = sequence == 2
sequence_state sequence BindingState.revoked = sequence == 3

abbrev same_hash : Option RagPolicySource → RagBindingEvent → Bool
same_hash none e = false
same_hash (some b) e = str_eq e.source_hash b.source_hash

abbrev same_provenance : Option RagPolicySource → RagBindingEvent → Bool
same_provenance none e = false
same_provenance (some b) e =
    e.actor_id == b.actor_id && e.request_id == b.request_id && str_eq e.reason b.proposal_reason

abbrev is_request : ℕ → ℕ → RagBindingEvent → Bool
is_request institution_id request_id e =
    e.institution_id == institution_id && e.request_id == request_id

-- rag_guard_binding_event, then the table's constraints
unfoldable pub insert_event : RagBindingEvent → Action Rag Unit
insert_event e = do
  binding ← gets (λ s. find (is_binding e.institution_id e.binding_id) s.policy_sources)
  raise_if (not (same_hash binding e)) (database "RAG binding event source mismatch")
  last ← gets (λ s. last_sequence (events_of e.institution_id e.binding_id s))
  raise_if (not (e.sequence == last + 1) || ltb 3 e.sequence)
      (database "Invalid RAG binding transition")
  raise_if (e.sequence == 1 && not (same_provenance binding e))
      (database "RAG proposal provenance mismatch")
  raise_if (not (sequence_state e.sequence e.status && is_hash e.source_hash && is_filled e.reason))
      integrity_error
  taken ← gets (λ s. any (is_request e.institution_id e.request_id) s.binding_events)
  raise_if taken integrity_error
  modify (λ s. record s { binding_events = s.binding_events ++ e ∷ [] })

unfoldable pub is_revision_of : ℕ → ℕ → ℕ → RagPolicySource → Bool
is_revision_of institution_id source_object_id policy_version_id b =
    b.institution_id == institution_id
    && b.source_object_id == source_object_id
    && b.policy_version_id == policy_version_id

-- `SELECT status ... ORDER BY sequence DESC LIMIT 1` is REVOKED
abbrev is_revoked : Option RagBindingEvent → Bool
is_revoked none = false
is_revoked (some e) = elim e.status [ BindingState.revoked ↦ true | _ ↦ false ]

abbrev follows : Option RagPolicySource → RagPolicySource → Rag → Bool
follows none b s = true
follows (some prior) b s =
    is_revoked (greatest (λ e. e.sequence) (events_of b.institution_id prior.id s))
    && b.revision == prior.revision + 1
    && opt_eq b.previous_revision_id (some prior.id)

abbrev starts : Option RagPolicySource → RagPolicySource → Bool
starts none b = b.revision == 1 && opt_eq b.previous_revision_id none
starts (some prior) b = true

abbrev document_hash_is : RagPolicySource → Option RagSourceObject → Rag → Bool
document_hash_is b none s = false
document_hash_is b (some source) s =
    any
      (λ d.
        d.institution_id == b.institution_id
        && d.id == source.document_id
        && str_eq d.content_hash b.source_hash)
      s.documents

abbrev source_hash_is : RagPolicySource → Option RagSourceObject → Bool
source_hash_is b none = false
source_hash_is b (some source) = str_eq source.source_hash b.source_hash

-- rag_guard_binding_revision
unfoldable pub guard_revision : RagPolicySource → Rag → Action Rag Unit
guard_revision b s = do
  let source =
      find (λ r. r.institution_id == b.institution_id && r.id == b.source_object_id)
        s.source_objects
  let prior =
      greatest (λ r. r.revision)
        (keep (is_revision_of b.institution_id b.source_object_id b.policy_version_id)
          s.policy_sources)
  raise_if (not (source_hash_is b source && document_hash_is b source s))
      (database "RAG binding source mismatch")
  raise_if (not (follows prior b s)) (database "RAG binding revision requires revoked predecessor")
  raise_if (not (starts prior b)) (database "RAG binding must start at revision one")

abbrev pub refuses : RagPolicySource → Rag → Bool
refuses b s =
    not (is_hash b.source_hash && is_filled b.proposal_reason)
    || any (λ x. x.id == b.id) s.policy_sources
    || any (λ x. x.institution_id == b.institution_id && x.request_id == b.request_id)
        s.policy_sources
    || not (
        any (λ v. v.institution_id == b.institution_id && v.id == b.policy_version_id)
          s.policy_versions)

-- rag_initialize_binding
unfoldable pub first_event : RagPolicySource → RagBindingEvent
first_event b = record {
  institution_id = b.institution_id;
  binding_id = b.id;
  sequence = 1;
  status = BindingState.proposed;
  source_hash = b.source_hash;
  reason = b.proposal_reason;
  actor_id = b.actor_id;
  request_id = b.request_id;
}

unfoldable pub insert_binding : RagPolicySource → Action Rag Unit
insert_binding b = do
  before ← gets (λ s. s)
  guard_revision b before
  raise_if (refuses b before) integrity_error
  modify (λ s. record s { policy_sources = s.policy_sources ++ b ∷ [] })
  insert_event (first_event b)
