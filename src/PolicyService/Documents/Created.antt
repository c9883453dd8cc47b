-- ===== src/PolicyService/Documents/Created.antt =====
-- A document that was created, as rag/source_repository.py finds it.
use placement_assistant.Prelude.{
  ℕ, String, Bool, true, List, [], ◌∷◌, ◌++◌, keep, keep-append, ok, err, integrity_error, ◌≡◌,
  refl, ap, ◌∙◌, arith, Bool-cases, inl, inr, ◌⊎◌,
}
use placement_assistant.Database.{Principal, one_or_none}
use placement_assistant.Evidence.Identity.{source_identity}
use placement_assistant.Rag.{Rag, Bytes, Document}
use placement_assistant.SourceService.{is_document, document_identity}
use placement_assistant.PolicyService.Documents.{
  DocumentCreate, violates, new_document, create_document,
}

keep_last :
    {A : Type 0} (f : A → Bool) (xs : List A) (x : A)
    → keep f xs ≡ []
    → f x ≡ true
    → keep f (xs ++ x ∷ []) ≡ x ∷ []
unfolding keep
keep_last f xs x h e = keep-append f xs (x ∷ []) ∙ rw (h, e) refl

module _ (p : Principal) (str_id : ℕ → String) (encode : String → Bytes) (sha256 : Bytes → String)
    (new_id key_id : ℕ) (posted : DocumentCreate) where
  abbrev fresh : Document
  fresh = new_document p str_id encode sha256 new_id key_id posted

  is_document-new_document : is_document p new_id fresh ≡ true
  unfolding is_document new_document
  is_document-new_document = ground arith

  content_hash-new_document : fresh.content_hash ≡ sha256 (encode posted.content)
  unfolding new_document
  content_hash-new_document = refl

  -- A creation either returns the row that it adds to the table, or is refused and changes nothing.
  create_document_cases :
      (s : Rag)
      → (create_document p str_id encode sha256 new_id key_id posted s ≡ (err integrity_error, s))
        ⊎ (create_document p str_id encode sha256 new_id key_id posted s
            ≡ (ok fresh, record s { documents = s.documents ++ fresh ∷ [] }))
  unfolding create_document
  create_document_cases s = elim (Bool-cases (violates fresh s)) [
    | inl refused ↦ inl (rw refused refl)
    | inr allowed ↦ inr (rw allowed refl)
  ]

  -- When a creation returns, under an id that no document of the institution has, the source repository
  -- finds the document by that id, with the digest of its text.
  pub create_document-document_identity :
      (s : Rag) (d : Document)
      → keep (is_document p new_id) s.documents ≡ []
      → (create_document p str_id encode sha256 new_id key_id posted s).0 ≡ ok d
      → (document_identity p new_id
          (create_document p str_id encode sha256 new_id key_id posted s).1).0
        ≡ source_identity p.institution_id new_id (sha256 (encode posted.content))
  unfolding document_identity one_or_none
  create_document-document_identity s d unused returned = elim (create_document_cases s) [
    | inl refused ↦ absurd (cc (rw refused at returned))
    | inr added ↦
        rw
          (
            added,
            keep_last (is_document p new_id) s.documents fresh unused is_document-new_document,
          )
          (ap (source_identity p.institution_id new_id) content_hash-new_document)
  ]
