-- ===== src/Agent/PolicyTools/Tests.antt =====
-- A search about the policy in force, in a context with a provider and an index, and in one without.
use placement_assistant.Prelude.{
  ℕ, String, true, false, [], ◌∷◌, List, some, none, pos, ok, ◌≡◌, refl, Result, ◌⊎◌, keep, find,
  any, last,
}
use placement_assistant.Evidence.{Component, finite}
use placement_assistant.Evidence.Text.{
  text_length, is_space, is_present, is_hex, all_hex, hex_digit, hex_digits, hex, ◌+++◌,
}
use placement_assistant.Evidence.Identity.{validate_hash, source_identity, object_key}
use placement_assistant.Evidence.Chunk.{new_citation}
use placement_assistant.Rag.Sample.{served, hash_a}
use placement_assistant.Database.Sample.{season, anna}
use placement_assistant.Database.{greatest}
use placement_assistant.RetrievalService.{
  concat_map, score_of, published_for, is_candidate, objects_for, sources_for, rows, row_of,
  citation_of, assemble, confirm, searching, retrieve_from, retrieve,
}
use placement_assistant.Agent.PolicyTools.{
  PolicySearchInput, ToolContext, tool_context, active_version, abstain, item_of, result_of,
  with_providers, search_policy_via_m6, version_for, search_version, m8_search_policy,
}
use placement_assistant.Agent.PolicyTools.Sourced.{
  Abstains, Answers, IsAsked, m8_search_policy-Answers,
}

-- Stands for all the definitions that a run computes with.
unfoldable everything : Unit {0}
unfolding text_length is_space is_present is_hex all_hex hex_digit hex_digits hex ◌+++◌
    validate_hash source_identity object_key new_citation concat_map score_of published_for
    is_candidate objects_for sources_for rows row_of citation_of assemble confirm searching
    retrieve_from retrieve keep find any last greatest tool_context active_version abstain item_of
    result_of with_providers search_policy_via_m6 version_for search_version m8_search_policy
everything = tt

abbrev question : PolicySearchInput
question = record { query = "How many offers?"; policy_version_id = none }

abbrev embed : List String → Result (List (List Component))
embed texts = ok ((finite (pos 1) 0 ∷ []) ∷ [])

abbrev answering : List Component → ℕ → Result (List (ℕ × ℕ))
answering vector generation_id = ok ((90, 7) ∷ [])

abbrev wired : ToolContext ℕ
wired = record {
  principal = anna;
  has_session = true;
  embedding_provider = some embed;
  qdrant_adapter = some answering;
}

run_wired : m8_search_policy question wired season served ≡ record {
  query = "How many offers?";
  evidence =
      record {
        text = "One offer at most.";
        document_id = 7;
        source_hash = hash_a;
        chunk_hash = hash_a;
        ordinal = 0;
        page = some 1;
        section = none;
        score = some 7;
      }
      ∷ [];
  abstained = false;
  reason = none;
}
unfolding everything
run_wired = refl

run_unwired :
    m8_search_policy {Score = ℕ} question (tool_context anna true) season served
    ≡ abstain "How many offers?" "PROVIDER_UNAVAILABLE"
unfolding everything
run_unwired = refl

m8_search_policy-Answers_example :
    Abstains (m8_search_policy question wired season served)
    ⊎ ((id : ℕ) × IsAsked question 1 season id
        × Answers 1 id served (m8_search_policy question wired season served))
m8_search_policy-Answers_example = m8_search_policy-Answers question wired season served
