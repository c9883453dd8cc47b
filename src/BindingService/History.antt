-- ===== src/BindingService/History.antt =====
-- The events of a binding under the commands of BindingService: numbered from one, with the states in
-- their order, and growing by one event at most with each command.
pub mod Grow
use placement_assistant.Prelude.{
  ℕ, String, true, false, Option, none, some, List, [], ◌∷◌, ◌++◌, ◌≡◌, refl, ◌⊎◌, inl, inr, arith,
  Result, ok, err, continue, Result-cases, Bool-cases, Action, not, ◌||◌, ◌==◌, evidence, raise_if,
  pure, ◌>>◌, Bool, Error,
}
use placement_assistant.Database.{Principal}
use placement_assistant.Evidence.{BindingState}
use placement_assistant.Rag.{Rag, Bytes, RagPolicySource, RagBindingEvent, RagSourceObject}
use placement_assistant.BindingService.History.Grow.{
  Histories, Writes, Writes-Histories, Writes-status, status, ◌⟶◌, insert_event-Fits,
  insert_event_refused,
}
use placement_assistant.BindingService.Triggers.{
  insert_event, insert_binding, guard_revision, first_event, refuses, events_of,
}
use placement_assistant.BindingService.Repository.{
  insert_revision, append_event, event_row, revision_row, is_foreign,
}
use placement_assistant.BindingService.{
  Plan, repeated, write, propose, prepare_proposal, carry_proposal, transition, prepare_event,
  carry_event, approve, revoke, view, BindingView,
}

insert_event-Writes : (e : RagBindingEvent) (s : Rag) → Writes s (insert_event e s).1
insert_event-Writes e s = elim (Result-cases (insert_event e s).0) [
  | inl (_, done) ↦ let (fits, same) = insert_event-Fits e s done in inr (e, fits, same)
  | inr (x, refused) ↦ inl (insert_event_refused e s x refused)
]

guard_revision_reads : (b : RagPolicySource) (x s : Rag) → (guard_revision b x s).1 ≡ s
unfolding guard_revision
guard_revision_reads b x s = ground arith

abbrev with_binding : RagPolicySource → Rag → Rag
with_binding b s = record s { policy_sources = s.policy_sources ++ b ∷ [] }

insert_binding_state :
    (b : RagPolicySource) (s : Rag)
    → ((insert_binding b s).1 ≡ s)
      ⊎ ((insert_binding b s).1 ≡ (insert_event (first_event b) (with_binding b s)).1)
unfolding insert_binding
insert_binding_state b s = elim (Result-cases (guard_revision b s s).0) [
  | inl (_, passed) ↦ elim (Bool-cases (refuses b s)) [
    | inl refused ↦ inl (rw (passed, guard_revision_reads b s s, refused) refl)
    | inr fine ↦ inr (rw (passed, guard_revision_reads b s s, fine) refl)
  ]
  | inr (e, raised) ↦ inl (rw raised (guard_revision_reads b s s))
]

insert_binding-Writes : (b : RagPolicySource) (s : Rag) → Writes s (insert_binding b s).1
unfolding events_of
insert_binding-Writes b s = elim (insert_binding_state b s) [
  | inl same ↦ rw same (inl refl)
  | inr same ↦ rw same (insert_event-Writes (first_event b) (with_binding b s))
]

guarded :
    {A : Type 0} (b : Bool) (x : Error) (m : Action Rag A) (s : Rag)
    → Writes s (m s).1
    → Writes s ((raise_if b x >> m) s).1
guarded true x m s h = inl refl
guarded false x m s h = h

-- What is read after a write does not write.
settled :
    {A B : Type 0} (r : Result A) (f : A → Rag → Result B) (t : Rag)
    → (continue r (λ a u. (f a u, u)) t).1 ≡ t
settled (ok a) f t = refl
settled (err e) f t = refl

module _ (principal : Principal) where
  insert_revision-Writes :
      (new_id : ℕ) (o : RagSourceObject) (policy_version_id : ℕ) (previous : Option RagPolicySource)
      (actor_id request_id : ℕ) (reason : String) (s : Rag)
      → Writes s
          (insert_revision principal.institution_id new_id o policy_version_id previous actor_id
            request_id reason s).1
  unfolding insert_revision
  insert_revision-Writes new_id o policy_version_id previous actor_id request_id reason s =
      let row =
        revision_row principal.institution_id new_id o policy_version_id previous actor_id
          request_id reason in
      guarded
        (not (o.institution_id == principal.institution_id)
          || is_foreign principal.institution_id previous)
        (evidence "BINDING_NOT_FOUND") (insert_binding row >> pure row) s
        (rw (settled (insert_binding row s).0 (λ _ _. ok row) (insert_binding row s).1)
          (insert_binding-Writes row s))

  append_event-Writes :
      (b : RagPolicySource) (n : ℕ) (target : BindingState) (actor_id request_id : ℕ)
      (reason : String) (s : Rag)
      → Writes s (append_event principal.institution_id b n target actor_id request_id reason s).1
  unfolding append_event
  append_event-Writes b n target actor_id request_id reason s =
      let row = event_row principal.institution_id b n target actor_id request_id reason in
      guarded (not (b.institution_id == principal.institution_id)) (evidence "BINDING_NOT_FOUND")
        (insert_event row) s (insert_event-Writes row s)

  module _ (sha256 : Bytes → String) where
    carried :
        {A : Type 0} (r : Result A) (f : A → Action Rag BindingView) (s : Rag)
        → ((a : A) → Writes s (f a s).1)
        → Writes s (continue r f s).1
    carried (ok a) f s h = h a
    carried (err e) f s h = inl refl

    carry_proposal-Writes :
        (new_id policy_version_id request_id : ℕ) (reason : String)
        (plan : Plan (RagSourceObject × Option RagPolicySource)) (s : Rag)
        → Writes s
            (carry_proposal principal sha256 new_id policy_version_id request_id reason plan s).1
    unfolding carry_proposal
    carry_proposal-Writes new_id policy_version_id request_id reason (repeated v) s = inl refl
    carry_proposal-Writes new_id policy_version_id request_id reason (write (o, previous)) s =
        let (r, t) =
          insert_revision principal.institution_id new_id o policy_version_id previous principal.sub
            request_id reason s in
        rw (settled r (view principal) t) (
          insert_revision-Writes new_id o policy_version_id previous principal.sub request_id reason
            s)

    carry_event-Writes :
        (target : BindingState) (request_id : ℕ) (reason : String)
        (plan : Plan (RagPolicySource × ℕ)) (s : Rag)
        → Writes s (carry_event principal sha256 target request_id reason plan s).1
    unfolding carry_event
    carry_event-Writes target request_id reason (repeated v) s = inl refl
    carry_event-Writes target request_id reason (write (b, n)) s =
        let (r, t) =
          append_event principal.institution_id b n target principal.sub request_id reason s in
        rw (settled r (λ _. view principal b) t)
          (append_event-Writes b n target principal.sub request_id reason s)

    propose-Writes :
        (new_id d policy_version_id request_id : ℕ) (reason : String) (s : Rag)
        → Writes s (propose principal sha256 new_id d policy_version_id request_id reason s).1
    unfolding propose
    propose-Writes new_id d policy_version_id request_id reason s =
        carried (prepare_proposal principal sha256 d policy_version_id request_id reason s)
          (carry_proposal principal sha256 new_id policy_version_id request_id reason) s
          (λ plan. carry_proposal-Writes new_id policy_version_id request_id reason plan s)

    transition-Writes :
        (binding_id : ℕ) (target : BindingState) (request_id : ℕ) (reason : String) (s : Rag)
        → Writes s (transition principal sha256 binding_id target request_id reason s).1
    unfolding transition
    transition-Writes binding_id target request_id reason s =
        carried (prepare_event principal sha256 binding_id target request_id reason s)
          (carry_event principal sha256 target request_id reason) s
          (λ plan. carry_event-Writes target request_id reason plan s)

-- A command of a user, in a transaction of its own.
pub data Command : Type 0 where
  proposing : Principal → ℕ → ℕ → ℕ → ℕ → String → Command
  approving : Principal → ℕ → ℕ → String → Command
  revoking : Principal → ℕ → ℕ → String → Command

abbrev pub end : {A : Type 0} → Result A → Rag → Rag → Rag
end (ok _) t s = t
end (err _) t s = s

-- Committed when it returns, rolled back when it raises.
unfoldable pub committed : {A : Type 0} → Action Rag A → Rag → Rag
committed m s = end (m s).0 (m s).1 s

unfoldable pub perform : (Bytes → String) → Command → Rag → Rag
perform sha256 (proposing principal new_id d policy_version_id request_id reason) =
    committed (propose principal sha256 new_id d policy_version_id request_id reason)
perform sha256 (approving principal binding_id request_id reason) =
    committed (approve principal sha256 binding_id request_id reason)
perform sha256 (revoking principal binding_id request_id reason) =
    committed (revoke principal sha256 binding_id request_id reason)

unfoldable pub perform_all : (Bytes → String) → List Command → Rag → Rag
perform_all sha256 [] s = s
perform_all sha256 (c ∷ cs) s = perform_all sha256 cs (perform sha256 c s)

end-Writes : {A : Type 0} (r : Result A) (t s : Rag) → Writes s t → Writes s (end r t s)
end-Writes (ok a) t s h = h
end-Writes (err e) t s h = inl refl

committed-Writes :
    {A : Type 0} (m : Action Rag A) (s : Rag) → Writes s (m s).1 → Writes s (committed m s)
unfolding committed
committed-Writes m s h = end-Writes (m s).0 (m s).1 s h

module _ (sha256 : Bytes → String) where
  perform-Writes : (c : Command) (s : Rag) → Writes s (perform sha256 c s)
  unfolding perform approve revoke
  perform-Writes (proposing principal new_id d policy_version_id request_id reason) s =
      committed-Writes (propose principal sha256 new_id d policy_version_id request_id reason) s
        (propose-Writes principal sha256 new_id d policy_version_id request_id reason s)
  perform-Writes (approving principal binding_id request_id reason) s =
      committed-Writes
        (transition principal sha256 binding_id BindingState.approved request_id reason) s
        (transition-Writes principal sha256 binding_id BindingState.approved request_id reason s)
  perform-Writes (revoking principal binding_id request_id reason) s =
      committed-Writes
        (transition principal sha256 binding_id BindingState.revoked request_id reason) s
        (transition-Writes principal sha256 binding_id BindingState.revoked request_id reason s)

  -- Whatever commands are given, in any order and by any users: when every binding has a history, that
  -- is no event, PROPOSED 1, then APPROVED 2, then REVOKED 3, each has one afterwards.
  pub perform_all-Histories :
      (cs : List Command) (s : Rag) → Histories s → Histories (perform_all sha256 cs s)
  unfolding perform_all
  perform_all-Histories [] s h = h
  perform_all-Histories (c ∷ cs) s h =
      perform_all-Histories cs (perform sha256 c s)
        (Writes-Histories s (perform sha256 c s) h (perform-Writes c s))

  -- Each command refines the life of a binding: where every binding has a history, the status of each
  -- binding stays as it is, or it goes from nothing to PROPOSED, from PROPOSED to APPROVED or from
  -- APPROVED to REVOKED. So nothing leaves REVOKED.
  pub perform-status :
      (c : Command) (s : Rag)
      → Histories s
      → (institution_id binding_id : ℕ)
      → (status institution_id binding_id (perform sha256 c s) ≡ status institution_id binding_id s)
        ⊎ (status institution_id binding_id s
            ⟶ status institution_id binding_id (perform sha256 c s))
  perform-status c s h = Writes-status s (perform sha256 c s) h (perform-Writes c s)
