-- ===== src/Agent/PolicyTools.antt =====
-- The policy search of the agent: m8_search_policy of apps/api/app/agent/m8_policy_tools.py and
-- search_policy_via_m6 of m8_m6_bridge.py. An error of the database is not modelled.
pub mod Sourced
mod Tests
use placement_assistant.Prelude.{
  ℕ, String, Bool, true, false, not, ◌&&◌, Option, none, some, List, [], map, keep, Result, ok, err,
  Error, evidence, ◌==◌, if◌then◌else◌,
}
use placement_assistant.Database.{Db, Principal, PolicyVersion, PolicyStatus, greatest}
use placement_assistant.Evidence.{Component}
use placement_assistant.Evidence.Chunk.{VerifiedEvidence}
use placement_assistant.Rag.{Rag}
use placement_assistant.RetrievalService.{retrieve}

pub record PolicySearchInput : Type 0 where
  pub query : String
  pub policy_version_id : Option ℕ

abbrev pub Provider : Type 0
Provider = List String → Result (List (List Component))

-- What the index answers to a vector, in a generation.
abbrev pub Index : Type 0 → Type 0
Index Score = List Component → ℕ → Result (List (ℕ × Score))

-- What the tools read of a context; the last two by `getattr(context, ..., None)`.
pub record ToolContext (Score : Type 0) : Type 0 where
  pub principal : Principal
  pub has_session : Bool
  pub embedding_provider : Option Provider
  pub qdrant_adapter : Option (Index Score)

-- The class ToolContext of context.py has no field for the provider, nor for the index.
unfoldable pub tool_context : {Score : Type 0} → Principal → Bool → ToolContext Score
tool_context principal has_session = record {
  principal = principal;
  has_session = has_session;
  embedding_provider = none;
  qdrant_adapter = none;
}

-- A dictionary of the list `evidence`, the ids as they are.
pub record EvidenceItem (Score : Type 0) : Type 0 where
  pub text : String
  pub document_id : ℕ
  pub source_hash : String
  pub chunk_hash : String
  pub ordinal : ℕ
  pub page : Option ℕ
  pub section : Option String
  pub score : Option Score

pub record SearchResult (Score : Type 0) : Type 0 where
  pub query : String
  pub evidence : List (EvidenceItem Score)
  pub abstained : Bool
  pub reason : Option String

abbrev pub is_in_force : ℕ → PolicyVersion → Bool
is_in_force institution_id v =
    v.institution_id == institution_id && elim v.status [ PolicyStatus.active ↦ true | _ ↦ false ]

-- The ACTIVE version of the institution with the greatest id.
unfoldable pub active_version : ℕ → Db → Option PolicyVersion
active_version institution_id db =
    greatest (λ v. v.id) (keep (is_in_force institution_id) db.policy_versions)

abbrev pub id_of : Option PolicyVersion → Option ℕ
id_of none = none
id_of (some v) = some v.id

-- The code of an EvidenceError, or what stands for any other exception.
abbrev pub code_of : Error → String
code_of (evidence code) = code
code_of _ = "RETRIEVAL_ERROR"

module _ {Score : Type 0} where
  unfoldable pub abstain : String → String → SearchResult Score
  abstain query reason = record {
    query = query;
    evidence = [];
    abstained = true;
    reason = some reason;
  }

  unfoldable pub item_of : VerifiedEvidence Score → EvidenceItem Score
  item_of ev = record {
    text = ev.text;
    document_id = ev.citation.document_id;
    source_hash = ev.citation.source_hash;
    chunk_hash = ev.citation.chunk_hash;
    ordinal = ev.citation.ordinal;
    page = ev.citation.page;
    section = ev.citation.section;
    score = ev.score;
  }

  unfoldable pub result_of : String → Result (List (VerifiedEvidence Score)) → SearchResult Score
  result_of query (err e) = abstain query (code_of e)
  result_of query (ok results) = record {
    query = query;
    evidence = map item_of results;
    abstained = false;
    reason = none;
  }

  unfoldable pub with_providers :
      String → ℕ → ℕ → Option Provider → Option (Index Score) → Rag → SearchResult Score
  with_providers query institution_id policy_version_id none index s =
      abstain query "PROVIDER_UNAVAILABLE"
  with_providers query institution_id policy_version_id (some provider) none s =
      abstain query "PROVIDER_UNAVAILABLE"
  with_providers query institution_id policy_version_id (some provider) (some index) s =
      result_of query (retrieve institution_id policy_version_id provider index query s)

  unfoldable pub search_policy_via_m6 :
      String → ℕ → ℕ → ToolContext Score → Rag → SearchResult Score
  search_policy_via_m6 query institution_id policy_version_id context s =
      if context.has_session
      then with_providers query institution_id policy_version_id context.embedding_provider
          context.qdrant_adapter s
      else abstain query "NO_SESSION"

  unfoldable pub version_for : PolicySearchInput → ToolContext Score → Db → Option ℕ
  version_for args context db = elim args.policy_version_id [
    | some id ↦ some id
    | none ↦
        if context.has_session
        then id_of (active_version context.principal.institution_id db)
        else none
  ]

  unfoldable pub search_version : String → ToolContext Score → Rag → Option ℕ → SearchResult Score
  search_version query context s none = abstain query "NO_ACTIVE_POLICY"
  search_version query context s (some id) =
      search_policy_via_m6 query context.principal.institution_id id context s

  unfoldable pub m8_search_policy :
      PolicySearchInput → ToolContext Score → Db → Rag → SearchResult Score
  m8_search_policy args context db s =
      search_version args.query context s (version_for args context db)
