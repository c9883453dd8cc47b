-- ===== src/RetrievalService/Grounded.antt =====
-- Where the evidence of an answer comes from.
use placement_assistant.Prelude.{
  last-All, All-filtered, ℕ, ◌≤◌, String, Option, List, [], ◌∷◌, keep, All, ◌≡◌, refl, sym, ◌⊎◌,
  inl, inr, arith, Result, ok, err, length, Option-cases, ◌==◌,
}
use placement_assistant.Evidence.{Component}
use placement_assistant.Evidence.Chunk.{VerifiedEvidence, new_citation}
use placement_assistant.Rag.{Rag, RagPublishedGeneration}
use placement_assistant.RetrievalService.Rows.{IsRow, rows-IsRow}
use placement_assistant.RetrievalService.Rows.{row_of-last}
use placement_assistant.RetrievalService.Published.{
  IsPublishedFor, NothingPublished, published_for-some, published_for-none, Cites,
  citation_of-Cites,
}
use placement_assistant.RetrievalService.{
  Row, published_for, row_of, citation_of, assemble, confirm, searching, retrieve_from, retrieve,
  ids_of, searched, first_vector, prepended, with_citation, score_of,
}

module _ (institution_id policy_version_id : ℕ) where
  module _ {Score : Type 0} where
    -- A piece of evidence with the row that it is read from.
    pub record IsGrounded (s : Rag) (generation_id : ℕ) (e : VerifiedEvidence Score) : Type 0 where
      pub row : Row
      pub is_row : IsRow institution_id policy_version_id s generation_id row
      pub text : e.text ≡ row.chunk.content
      pub citation : Cites institution_id policy_version_id row e.citation

    cited :
        (x : Row) (score : Option Score) (e : VerifiedEvidence Score)
        → with_citation institution_id policy_version_id x score
            (new_citation (citation_of institution_id policy_version_id x))
          ≡ ok e
        → e.citation ≡ citation_of institution_id policy_version_id x
    unfolding new_citation
    cited x score e h = ground arith

    with_citation-Grounded :
        (s : Rag) (generation_id : ℕ) (x : Row) (score : Option Score) (e : VerifiedEvidence Score)
        → IsRow institution_id policy_version_id s generation_id x
        → with_citation institution_id policy_version_id x score
            (new_citation (citation_of institution_id policy_version_id x))
          ≡ ok e
        → IsGrounded s generation_id e
    unfolding new_citation
    with_citation-Grounded s generation_id x score e is_row h = record {
      row = x;
      is_row = is_row;
      text = ground arith;
      citation = rw (cited x score e h) (citation_of-Cites institution_id policy_version_id x);
    }

    prepended-ok :
        (r : Result (VerifiedEvidence Score)) (rest : Result (List (VerifiedEvidence Score)))
        (es : List (VerifiedEvidence Score))
        → prepended institution_id policy_version_id r rest ≡ ok es
        → (e : VerifiedEvidence Score) × (more : List (VerifiedEvidence Score)) × (r ≡ ok e)
          × (rest ≡ ok more)
          × (es ≡ e ∷ more)
    prepended-ok (err x) rest es h = cc
    prepended-ok (ok e) (err x) es h = cc
    prepended-ok (ok e) (ok more) es h = (e, more, refl, refl, sym (cc h))

    assemble-Grounded :
        (s : Rag) (generation_id : ℕ) (candidates : List (ℕ × Score)) (found : List Row)
        (ids : List ℕ) (es : List (VerifiedEvidence Score))
        → All (IsRow institution_id policy_version_id s generation_id) found
        → assemble institution_id policy_version_id candidates found ids ≡ ok es
        → All (IsGrounded s generation_id) es × (length es ≤ length ids)
    unfolding assemble
    assemble-Grounded s generation_id candidates found [] es all h =
        let none_of : [] ≡ es = cc h in rw (sym none_of) (tt, omega arith)
    assemble-Grounded s generation_id candidates found (id ∷ ids) es all h =
        elim (Option-cases (row_of institution_id policy_version_id id found)) [
          | inl absent ↦
              let (grounded, short) =
                assemble-Grounded s generation_id candidates found ids es all (rw absent at h) in
              (grounded, omega (arith, short))
          | inr (x, there) ↦
              let (e, more, first, rest, same) =
                prepended-ok
                  (with_citation institution_id policy_version_id x (score_of id candidates)
                    (new_citation (citation_of institution_id policy_version_id x)))
                  (assemble institution_id policy_version_id candidates found ids) es
                  (rw there at h) in
              let (grounded, short) =
                assemble-Grounded s generation_id candidates found ids more all rest in
              let is_row : IsRow institution_id policy_version_id s generation_id x =
                last-All (IsRow institution_id policy_version_id s generation_id)
                  (keep (λ y. y.chunk.id == id) found) x
                  (All-filtered (IsRow institution_id policy_version_id s generation_id)
                    (λ y. y.chunk.id == id) found all)
                  (row_of-last institution_id policy_version_id id found x there) in
              rw same (
                (
                  with_citation-Grounded s generation_id x (score_of id candidates) e is_row first,
                  grounded,
                ),
                omega (arith, short),
              )
        ]

    confirm-Grounded :
        (s : Rag) (generation_id : ℕ) (r : Result (List (ℕ × Score)))
        (es : List (VerifiedEvidence Score))
        → confirm institution_id policy_version_id generation_id s r ≡ ok es
        → All (IsGrounded s generation_id) es
    unfolding confirm
    confirm-Grounded s generation_id (err e) es h = cc
    confirm-Grounded s generation_id (ok candidates) es h =
        (assemble-Grounded s generation_id candidates _ (ids_of candidates) es
          (rows-IsRow institution_id policy_version_id generation_id (ids_of candidates) s) h).0

    searching-Grounded :
        (search : List Component → ℕ → Result (List (ℕ × Score))) (s : Rag) (generation_id : ℕ)
        (r : Result (List Component)) (es : List (VerifiedEvidence Score))
        → searching institution_id policy_version_id search generation_id s r ≡ ok es
        → All (IsGrounded s generation_id) es
    unfolding searching
    searching-Grounded search s generation_id (err e) es h = cc
    searching-Grounded search s generation_id (ok vector) es h =
        confirm-Grounded s generation_id (searched (search vector generation_id)) es h

    -- Whatever the index and the provider answer: what a retrieval returns is empty when nothing is
    -- published for the institution and the version of the policy; otherwise the institution publishes a
    -- generation for a binding to that version, and each piece of evidence has the text and, column by
    -- column, the citation of a chunk of the institution, of the run that this generation indexed, whose
    -- binding is to that version, and of the binding's source.
    pub retrieve-IsGrounded :
        (embed : List String → Result (List (List Component)))
        (search : List Component → ℕ → Result (List (ℕ × Score))) (query : String) (s : Rag)
        (es : List (VerifiedEvidence Score))
        → retrieve institution_id policy_version_id embed search query s ≡ ok es
        → ((es ≡ []) × NothingPublished institution_id policy_version_id s)
          ⊎ ((p : RagPublishedGeneration) × IsPublishedFor institution_id policy_version_id s p
              × All (IsGrounded s p.generation_id) es)
    unfolding retrieve retrieve_from
    retrieve-IsGrounded embed search query s es h =
        elim (Option-cases (published_for institution_id policy_version_id s)) [
          | inl absent ↦ inl (
            sym (cc (rw absent at h)),
            published_for-none institution_id policy_version_id s absent,
          )
          | inr (p, there) ↦ inr (
            p,
            published_for-some institution_id policy_version_id s p there,
            searching-Grounded search s p.generation_id (first_vector (embed (query ∷ []))) es
                (rw there at h),
          )
        ]
