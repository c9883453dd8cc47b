-- ===== src/BindingService/Approval.antt =====
-- What an approval has verified.
use placement_assistant.Prelude.{
  find-only, ℕ, String, Bool, true, false, none, some, keep, ◌≡◌, refl, sym, ap, ◌∙◌, arith, ok,
  continue-inversion, eq_iff, not, str_eq,
}
use placement_assistant.Prelude.Reading.{on_ok-inversion}
use placement_assistant.Database.{Principal, one_or_none-some}
use placement_assistant.Evidence.{BindingState, SourceIdentity}
use placement_assistant.Rag.{Rag, Bytes, RagPolicySource, RagSourceObject}
use placement_assistant.SourceService.{get, is_source_of, agrees, read_for_review}
use placement_assistant.SourceService.Stored.{verified_fits, read_verified-verified}
use placement_assistant.SourceService.Review.{review_steps}
use placement_assistant.BindingService.Repository.{binding, source, document_of, event_request}
use placement_assistant.BindingService.Steps.{prepare_event-Found}
use placement_assistant.BindingService.{
  Plan, BindingView, approve, transition, prepare_event, plan_event, carry_event, verify_current,
  review, refuse_if, legal,
}

module _ (principal : Principal) (sha256 : Bytes → String) where
  source-get :
      (d : ℕ) (s : Rag) (r : RagSourceObject)
      → (get principal d s).0 ≡ ok (some r)
      → source principal.institution_id d s ≡ ok r
  unfolding get source
  source-get d s r h =
      rw
        (find-only (is_source_of principal d) s.source_objects r
          (one_or_none-some (keep (is_source_of principal d) s.source_objects) r h))
        refl

  refuse_if-ok : (b : Bool) (code : String) (s : Rag) → refuse_if b code s ≡ ok tt → b ≡ false
  unfolding refuse_if
  refuse_if-ok true code s h = cc
  refuse_if-ok false code s h = refl

  equal_hash : (x y : String) → not (str_eq x y) ≡ false → x ≡ y
  equal_hash x y h = ground (arith, eq_iff x y)

  agrees-hash :
      (identity : SourceIdentity) (r : RagSourceObject)
      → agrees identity r ≡ true
      → r.source_hash ≡ identity.source_hash
  unfolding agrees
  agrees-hash identity r h = ground (arith, eq_iff r.source_hash identity.source_hash)

  planned_verified :
      (binding_id : ℕ) (b : RagPolicySource) (reason : String) (current : BindingView) (s : Rag)
      (plan : Plan (RagPolicySource × ℕ))
      → plan_event principal sha256 binding_id b BindingState.approved reason current none s
        ≡ ok plan
      → verify_current principal sha256 b BindingState.approved s ≡ ok tt
  unfolding plan_event
  planned_verified binding_id b reason current s plan h =
      let (_, permitted, h1) =
        on_ok-inversion (legal principal current.state BindingState.approved s) _ s plan h in
      let (_, verified, _) =
        on_ok-inversion (verify_current principal sha256 b BindingState.approved s) _ s plan h1 in
      verified

  -- A source that passed has its bytes in the store, with the digest of the binding.
  verify_current-Holds :
      (b : RagPolicySource) (s : Rag)
      → verify_current principal sha256 b BindingState.approved s ≡ ok tt
      → (object : RagSourceObject) × (bytes : Bytes) × (document_of principal.institution_id
            b.source_object_id s
          ≡ ok object)
        × ((read_for_review principal sha256 object.document_id s).0 ≡ ok bytes)
        × (sha256 bytes ≡ b.source_hash)
  unfolding verify_current review
  verify_current-Holds b s h =
      let (object, found, h1) =
        on_ok-inversion (document_of principal.institution_id b.source_object_id s) _ s tt h in
      let (bytes, reviewed, h2) =
        on_ok-inversion (review principal sha256 object.document_id s) _ s tt h1 in
      let (current, recorded, h3) =
        on_ok-inversion (source principal.institution_id object.document_id s) _ s tt h2 in
      let (identity, identified, readable, (r, got, agreeing)) =
        review_steps principal sha256 object.document_id s bytes reviewed in
      let (_, hash) =
        verified_fits sha256 identity bytes
          (read_verified-verified sha256 identity s bytes readable) in
      let same : r ≡ current = cc (sym (source-get object.document_id s r got) ∙ recorded) in
      (
        object,
        bytes,
        found,
        reviewed,
        hash
            ∙ sym (agrees-hash identity r agreeing)
            ∙ ap (λ x. x.source_hash) same
            ∙ equal_hash current.source_hash b.source_hash (refuse_if-ok _ _ s h3),
      )

  -- When an approval returns, and its request was not made before, then the binding's source is on
  -- record for a document whose bytes can be reviewed, and they have the digest of the binding.
  pub approve-IsVerified :
      (binding_id request_id : ℕ) (reason : String) (s t : Rag) (v : BindingView)
      → approve principal sha256 binding_id request_id reason s ≡ (ok v, t)
      → event_request principal.institution_id request_id s ≡ none
      → (b : RagPolicySource) × (object : RagSourceObject) × (bytes : Bytes) × (binding
            principal.institution_id binding_id s
          ≡ ok b)
        × (document_of principal.institution_id b.source_object_id s ≡ ok object)
        × ((read_for_review principal sha256 object.document_id s).0 ≡ ok bytes)
        × (sha256 bytes ≡ b.source_hash)
  unfolding approve transition
  approve-IsVerified binding_id request_id reason s t v h fresh =
      let (plan, prepared, _) =
        continue-inversion
          (prepare_event principal sha256 binding_id BindingState.approved request_id reason s)
          (carry_event principal sha256 BindingState.approved request_id reason) s t v h in
      let (f, planned) =
        prepare_event-Found principal sha256 binding_id BindingState.approved request_id reason s
          plan prepared in
      let (object, bytes, found, reviewed, hash) =
        verify_current-Holds f.row s
          (planned_verified binding_id f.row reason f.current s plan (rw fresh at planned)) in
      (f.row, object, bytes, f.found, found, reviewed, hash)
