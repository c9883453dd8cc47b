-- ===== src/BindingService/Steps.antt =====
-- What a transition that returned has found and written.
use placement_assistant.Prelude.{
  ℕ, String, Bool, true, false, Option, none, some, [], ◌∷◌, ◌++◌, find, find-passes, ◌≡◌, refl,
  sym, ap, ◌∙◌, arith, inl, inr, ◌⊎◌, continue-inversion, ok, Option-cases, eq_iff, ==_iff,
  evidence,
}
use placement_assistant.Prelude.Reading.{on_ok-inversion, found_or}
use placement_assistant.Database.{Principal}
use placement_assistant.Evidence.{BindingState}
use placement_assistant.Rag.{Rag, Bytes, RagPolicySource, RagBindingEvent}
use placement_assistant.BindingService.Triggers.{is_binding, insert_event}
use placement_assistant.BindingService.Repository.{
  binding, event_request, has_request, append_event, event_row,
}
use placement_assistant.BindingService.{
  BindingView, Plan, repeated, write, same_state, refuse_if, require_staff, validate_reason, view,
  other_event, plan_event, prepare_event, carry_event,
}

pub insert_event_state :
    (e : RagBindingEvent) (s : Rag)
    → (insert_event e s).0 ≡ ok tt
    → (insert_event e s).1 ≡ record s { binding_events = s.binding_events ++ e ∷ [] }
unfolding insert_event
insert_event_state e s h = ground arith

pub refuse_if_same :
    (b : Bool) (code : String) (s t : Rag) → refuse_if b code s ≡ ok tt → refuse_if b code t ≡ ok tt
unfolding refuse_if
refuse_if_same true code s t h = cc
refuse_if_same false code s t h = refl

pub found_or_same :
    {A : Type 0} (o : Option A) (s t : Rag) (x : A)
    → found_or (evidence "BINDING_NOT_FOUND") o s ≡ ok x
    → found_or (evidence "BINDING_NOT_FOUND") o t ≡ ok x
found_or_same none s t x h = cc
found_or_same (some y) s t x h = h

module _ (principal : Principal) (sha256 : Bytes → String) where
  abbrev pub tenant : ℕ
  tenant = principal.institution_id

  -- What a preparation that returned has found.
  pub record Found (binding_id request_id : ℕ) (reason : String) (s : Rag) : Type 0 where
    pub staff : require_staff principal s ≡ ok tt
    pub reasoned : validate_reason principal reason s ≡ ok tt
    pub row : RagPolicySource
    pub found : binding tenant binding_id s ≡ ok row
    pub current : BindingView
    pub viewed : view principal row s ≡ ok current

  pub prepare_event-Found :
      (binding_id : ℕ) (target : BindingState) (request_id : ℕ) (reason : String) (s : Rag)
      (plan : Plan (RagPolicySource × ℕ))
      → prepare_event principal sha256 binding_id target request_id reason s ≡ ok plan
      → (f : Found binding_id request_id reason s) × (plan_event principal sha256 binding_id f.row
            target reason f.current
            (event_request tenant request_id s)
            s
          ≡ ok plan)
  unfolding prepare_event
  prepare_event-Found binding_id target request_id reason s plan h =
      let (_, staff, h1) = on_ok-inversion (require_staff principal s) _ s plan h in
      let (_, reasoned, h2) = on_ok-inversion (validate_reason principal reason s) _ s plan h1 in
      let (row, found, h3) = on_ok-inversion (binding tenant binding_id s) _ s plan h2 in
      let (current, viewed, h4) = on_ok-inversion (view principal row s) _ s plan h3 in
      (
        record {
          staff = staff;
          reasoned = reasoned;
          row = row;
          found = found;
          current = current;
          viewed = viewed;
        },
        h4,
      )

  pub prepare_again :
      (binding_id : ℕ) (target : BindingState) (request_id : ℕ) (reason : String) (t : Rag)
      (row : RagPolicySource) (v : BindingView) (e : RagBindingEvent)
      → require_staff principal t ≡ ok tt
      → validate_reason principal reason t ≡ ok tt
      → binding tenant binding_id t ≡ ok row
      → view principal row t ≡ ok v
      → event_request tenant request_id t ≡ some e
      → other_event principal binding_id target reason e ≡ false
      → prepare_event principal sha256 binding_id target request_id reason t ≡ ok (repeated v)
  unfolding prepare_event plan_event refuse_if
  prepare_again binding_id target request_id reason t row v e staff reasoned found viewed there
        same =
      rw (staff, reasoned, found, viewed, there, same) refl

  pub plan_event-cases :
      (binding_id : ℕ) (row : RagPolicySource) (target : BindingState) (reason : String)
      (current : BindingView) (o : Option RagBindingEvent) (s : Rag)
      (plan : Plan (RagPolicySource × ℕ))
      → plan_event principal sha256 binding_id row target reason current o s ≡ ok plan
      → ((v : BindingView) × (plan ≡ repeated v)) ⊎ ((n : ℕ) × (plan ≡ write (row, n)) × (o ≡ none))
  unfolding plan_event
  plan_event-cases binding_id row target reason current o s (repeated v) h = inl (v, refl)
  plan_event-cases binding_id row target reason current (some e) s (write (b, n)) h =
      absurd (ground arith)
  plan_event-cases binding_id row target reason current none s (write (b, n)) h =
      inr (n, ground arith, refl)

  append_event_state :
      (b : RagPolicySource) (n : ℕ) (target : BindingState) (request_id : ℕ) (reason : String)
      (s : Rag)
      → (append_event tenant b n target principal.sub request_id reason s).0 ≡ ok tt
      → (append_event tenant b n target principal.sub request_id reason s).1 ≡ record s {
        binding_events =
            s.binding_events ++ event_row tenant b n target principal.sub request_id reason ∷ [];
      }
  unfolding append_event
  append_event_state b n target request_id reason s h =
      ground
        (arith, insert_event_state (event_row tenant b n target principal.sub request_id reason) s)

  pub written :
      (b : RagPolicySource) (n : ℕ) (target : BindingState) (request_id : ℕ) (reason : String)
      (s t : Rag) (v : BindingView)
      → carry_event principal sha256 target request_id reason (write (b, n)) s ≡ (ok v, t)
      → (t ≡ record s {
        binding_events =
            s.binding_events ++ event_row tenant b n target principal.sub request_id reason ∷ [];
      })
        × (view principal b t ≡ ok v)
  unfolding carry_event
  written b n target request_id reason s t v h =
      let call = append_event tenant b n target principal.sub request_id reason s in
      let (x, done, rest) = continue-inversion call.0 _ call.1 t v h in
      let same : call.1 ≡ t = ap (λ p. p.1) rest in
      (
        sym same ∙ append_event_state b n target request_id reason s done,
        rw (sym same) (ap (λ p. p.0) rest),
      )

  pub own_event :
      (b : RagPolicySource) (binding_id n : ℕ) (target : BindingState) (request_id : ℕ)
      (reason : String)
      → b.id ≡ binding_id
      → (has_request tenant request_id (event_row tenant b n target principal.sub request_id reason)
          ≡ true)
        × (other_event principal binding_id target reason
              (event_row tenant b n target principal.sub request_id reason)
            ≡ false)
  unfolding has_request event_row other_event same_state
  own_event b binding_id n target request_id reason h = ground (
    arith,
    (eq_iff reason reason).1 refl,
    (==_iff tenant tenant).1 refl,
    (==_iff request_id request_id).1 refl,
  )

  pub binding-id :
      (binding_id : ℕ) (s : Rag) (row : RagPolicySource)
      → binding tenant binding_id s ≡ ok row
      → row.id ≡ binding_id
  unfolding binding is_binding
  binding-id binding_id s row h =
      elim (Option-cases (find (is_binding tenant binding_id) s.policy_sources)) [
        | inl absent ↦ absurd (ground arith)
        | inr (x, there) ↦ ground (
          arith,
          find-passes (is_binding tenant binding_id) s.policy_sources x there,
          ==_iff x.id binding_id,
        )
      ]
