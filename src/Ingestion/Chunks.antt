-- ===== src/Ingestion/Chunks.antt =====
-- `save_chunks`: the rows of a batch, with what the database asks of each.
use placement_assistant.Prelude.{
  ℕ, String, Bool, true, false, not, ◌&&◌, Option, none, some, List, [], ◌∷◌, ◌++◌, find, any,
  Action, ◌>>=◌, ◌>>◌, pure, raise_if, gets, modify, or_raise, database, integrity_error, ltb, ◌==◌,
  str_eq,
}
use placement_assistant.Rag.{Rag, RagPolicySource, RagChunk}
use placement_assistant.BindingService.Triggers.{is_hash, is_binding}
use placement_assistant.Ingestion.{ChunkData, is_run}
use placement_assistant.Evidence.Text.{text_length}

abbrev binding_differs : Option RagPolicySource → RagChunk → Bool
binding_differs none c = false
binding_differs (some b) c = not (str_eq b.source_hash c.source_hash)

abbrev artifact_differs : Option String → RagChunk → Bool
artifact_differs none c = false
artifact_differs (some hash) c = not (str_eq hash c.artifact_hash)

-- rag_guard_chunk_consistency, before the insertion of a row
guard_chunk : RagChunk → Action Rag Unit
guard_chunk c = do
  found ← gets (λ s. find (is_run c.institution_id c.run_id) s.runs)
  run ← or_raise (database "RAG chunk run missing") found
  binding ← gets (λ s. find (is_binding run.institution_id run.binding_id) s.policy_sources)
  raise_if (binding_differs binding c) (database "RAG chunk source hash mismatch")
  raise_if (artifact_differs run.normalized_artifact_hash c)
      (database "RAG chunk artifact hash mismatch")

abbrev page_fits : Option ℕ → Bool
page_fits none = true
page_fits (some n) = ltb 0 n

abbrev offsets_fit : Option ℕ → Option ℕ → Bool
offsets_fit none none = true
offsets_fit (some start) (some end) = ltb start end
offsets_fit _ _ = false

abbrev is_locator : Option ℕ → Option String → Option ℕ → Bool
is_locator (some page) section start = true
is_locator none section (some start) = true
is_locator none (some section) none = ltb 0 (text_length section)
is_locator none none none = false

fits_constraints : RagChunk → Rag → Bool
fits_constraints c s =
    is_hash c.source_hash
    && is_hash c.artifact_hash
    && is_hash c.chunk_hash
    && page_fits c.page
    && offsets_fit c.start_offset c.end_offset
    && is_locator c.page c.section c.start_offset
    && not (
        any
          (λ x.
            x.institution_id == c.institution_id && x.run_id == c.run_id && x.ordinal == c.ordinal)
          s.chunks)
    && not (any (λ x. x.id == c.id) s.chunks)

insert_chunk : RagChunk → Action Rag Unit
insert_chunk c = do
  guard_chunk c
  fits ← gets (fits_constraints c)
  raise_if (not fits) integrity_error
  modify (λ s. record s { chunks = s.chunks ++ c ∷ [] })

chunk_row : ℕ → ℕ → ℕ → ChunkData → RagChunk
chunk_row institution_id id run_id d = record {
  id = id;
  institution_id = institution_id;
  run_id = run_id;
  ordinal = d.ordinal;
  content = d.content;
  page = d.page;
  section = d.section;
  start_offset = d.start_offset;
  end_offset = d.end_offset;
  source_hash = d.source_hash;
  artifact_hash = d.artifact_hash;
  chunk_hash = d.chunk_hash;
}

-- Each dict comes with the id that the database gives to its row.
save_chunks : ℕ → ℕ → List (ℕ × ChunkData) → Action Rag (List RagChunk)
save_chunks institution_id run_id [] = pure []
save_chunks institution_id run_id ((id, d) ∷ more) = do
  let c = chunk_row institution_id id run_id d
  insert_chunk c
  rest ← save_chunks institution_id run_id more
  pure (c ∷ rest)
