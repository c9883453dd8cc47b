-- ===== src/BindingService/Retry.antt =====
-- A transition that is requested again.
use placement_assistant.Prelude.{
  find-snoc, ℕ, String, true, none, some, [], ◌∷◌, ◌++◌, find, ◌≡◌, refl, ap, subst, inl, inr,
  continue-inversion, ok,
}
use placement_assistant.Database.{Principal}
use placement_assistant.Evidence.{BindingState}
use placement_assistant.Rag.{Rag, Bytes, RagPolicySource, RagBindingEvent}
use placement_assistant.BindingService.Triggers.{is_binding}
use placement_assistant.BindingService.Repository.{binding, event_request, has_request, event_row}
use placement_assistant.BindingService.Steps.{
  prepare_event-Found, prepare_again, plan_event-cases, written, own_event, binding-id,
  refuse_if_same, found_or_same,
}
use placement_assistant.BindingService.{
  BindingView, repeated, require_staff, validate_reason, prepare_event, carry_event, transition,
}

module _ (principal : Principal) (sha256 : Bytes → String) where
  repeated_state :
      (target : BindingState) (request_id : ℕ) (reason : String) (s t : Rag) (v w : BindingView)
      → carry_event principal sha256 target request_id reason (repeated w) s ≡ (ok v, t)
      → s ≡ t
  unfolding carry_event
  repeated_state target request_id reason s t v w h = ap (λ p. p.1) h

  repeated_call :
      (target : BindingState) (request_id : ℕ) (reason : String) (v : BindingView) (t : Rag)
      → carry_event principal sha256 target request_id reason (repeated v) t ≡ (ok v, t)
  unfolding carry_event
  repeated_call target request_id reason v t = refl

  later_state :
      (s t : Rag) (e : RagBindingEvent) (binding_id request_id : ℕ) (reason : String)
      (row : RagPolicySource)
      → t ≡ record s { binding_events = s.binding_events ++ e ∷ [] }
      → require_staff principal s ≡ ok tt
      → validate_reason principal reason s ≡ ok tt
      → binding principal.institution_id binding_id s ≡ ok row
      → event_request principal.institution_id request_id s ≡ none
      → has_request principal.institution_id request_id e ≡ true
      → (require_staff principal t ≡ ok tt)
        × (validate_reason principal reason t ≡ ok tt)
        × (binding principal.institution_id binding_id t ≡ ok row)
        × (event_request principal.institution_id request_id t ≡ some e)
  unfolding require_staff validate_reason binding event_request
  later_state s t e binding_id request_id reason row same staff reasoned found fresh own = (
    refuse_if_same _ _ s t staff,
    refuse_if_same _ _ s t reasoned,
    rw same (
        found_or_same (find (is_binding principal.institution_id binding_id) s.policy_sources) s
          (record s { binding_events = s.binding_events ++ e ∷ [] }) row found),
    rw same
        (find-snoc (has_request principal.institution_id request_id) s.binding_events e fresh own),
  )

  -- A transition that returned, when it is requested again with the same request id, returns the same
  -- view and writes nothing.
  pub transition_repeated :
      (binding_id : ℕ) (target : BindingState) (request_id : ℕ) (reason : String) (s t : Rag)
      (v : BindingView)
      → transition principal sha256 binding_id target request_id reason s ≡ (ok v, t)
      → transition principal sha256 binding_id target request_id reason t ≡ (ok v, t)
  unfolding transition
  transition_repeated binding_id target request_id reason s t v h =
      let (plan, prepared, carried) =
        continue-inversion (prepare_event principal sha256 binding_id target request_id reason s)
          (carry_event principal sha256 target request_id reason) s t v h in
      let (f, planned) =
        prepare_event-Found principal sha256 binding_id target request_id reason s plan prepared in
      elim (plan_event-cases principal sha256 binding_id f.row target reason f.current
        (event_request principal.institution_id request_id s) s plan planned) [
          | inl (w, same) ↦
              subst
                (λ u. transition principal sha256 binding_id target request_id reason u ≡ (ok v, t))
                (repeated_state target request_id reason s t v w (rw same at carried)) h
          | inr (n, same, fresh) ↦
              let (at, viewed) =
                written principal sha256 f.row n target request_id reason s t v
                  (rw same at carried) in
              let (own, matching) =
                own_event principal sha256 f.row binding_id n target request_id reason
                  (binding-id principal sha256 binding_id s f.row f.found) in
              let e =
                event_row principal.institution_id f.row n target principal.sub request_id reason in
              let (staff, reasoned, found, there) =
                later_state s t e binding_id request_id reason f.row at f.staff f.reasoned f.found
                  fresh own in
              rw
                (prepare_again principal sha256 binding_id target request_id reason t f.row v e
                  staff reasoned found viewed there matching)
                (repeated_call target request_id reason v t)
        ]
