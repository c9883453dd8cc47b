-- ===== src/BindingService/History/Grow.antt =====
-- Lists of events with one more event, and what the trigger lets in.
use placement_assistant.Prelude.{
  append_nothing, keep_one, keep_other, ℕ, suc, ◌+◌, ◌≤◌, true, Option, none, some, List, [], ◌∷◌,
  ◌++◌, length, keep, last, keep-append, length-append, ◌≡◌, refl, ap, ◌∙◌, ◌⊎◌, inl, inr, arith,
  ok, err, Error, ==_iff, Bool-cases,
}
use placement_assistant.Evidence.{BindingState}
use placement_assistant.Rag.{Rag, RagBindingEvent}
use placement_assistant.BindingService.Triggers.{
  insert_event, events_of, is_event_of, last_sequence, sequence_state,
}

-- Numbered from `n`, each event in the state that its number stands for.
abbrev pub IsNumbered : ℕ → List RagBindingEvent → Type 0
IsNumbered n [] = Unit
IsNumbered n (e ∷ es) =
    (e.sequence ≡ n) × (sequence_state n e.status ≡ true) × IsNumbered (suc n) es

-- One event, two or three: PROPOSED 1, APPROVED 2, REVOKED 3, or the first of these.
abbrev pub IsHistory : List RagBindingEvent → Type 0
IsHistory es = IsNumbered 1 es × (length es ≤ 3)

abbrev pub Histories : Rag → Type 0
Histories s = (institution_id binding_id : ℕ) → IsHistory (events_of institution_id binding_id s)

-- Where a binding stands: nothing is proposed yet, or the state of its last event.
abbrev pub state_of : Option RagBindingEvent → Option BindingState
state_of none = none
state_of (some e) = some e.status

abbrev pub status : ℕ → ℕ → Rag → Option BindingState
status institution_id binding_id s = state_of (last (events_of institution_id binding_id s))

-- The life of a binding.
infix 40 ◌⟶◌
pub data ◌⟶◌ : Option BindingState → Option BindingState → Type 0 where
  proposing : none ⟶ some BindingState.proposed
  approving : some BindingState.proposed ⟶ some BindingState.approved
  revoking : some BindingState.approved ⟶ some BindingState.revoked

-- What the trigger and the constraints ask of a new event.
abbrev pub Fits : RagBindingEvent → Rag → Type 0
Fits e s =
    (e.sequence ≡ last_sequence (events_of e.institution_id e.binding_id s) + 1)
    × (e.sequence ≤ 3)
    × (sequence_state e.sequence e.status ≡ true)

-- From one state to another no event is written, or one that fits.
abbrev pub Writes : Rag → Rag → Type 0
Writes s t =
    (t.binding_events ≡ s.binding_events)
    ⊎ ((e : RagBindingEvent) × Fits e s × (t.binding_events ≡ s.binding_events ++ e ∷ []))

pub insert_event-Fits :
    (e : RagBindingEvent) (s : Rag)
    → (insert_event e s).0 ≡ ok tt
    → Fits e s × ((insert_event e s).1.binding_events ≡ s.binding_events ++ e ∷ [])
unfolding insert_event
insert_event-Fits e s h = ground arith

pub insert_event_refused :
    (e : RagBindingEvent) (s : Rag) (x : Error)
    → (insert_event e s).0 ≡ err x
    → (insert_event e s).1.binding_events ≡ s.binding_events
unfolding insert_event
insert_event_refused e s x h = ground arith

last_sequence-numbered :
    (n : ℕ) (e : RagBindingEvent) (es : List RagBindingEvent)
    → IsNumbered n (e ∷ es)
    → last_sequence (e ∷ es) ≡ n + length es
unfolding last_sequence
last_sequence-numbered n e [] h = ground arith
last_sequence-numbered n e (f ∷ es) h = ground (arith, last_sequence-numbered (suc n) f es h.2)

last_sequence_count : (es : List RagBindingEvent) → IsNumbered 1 es → last_sequence es ≡ length es
unfolding last_sequence
last_sequence_count [] h = refl
last_sequence_count (e ∷ es) h = omega (arith, last_sequence-numbered 1 e es h)

IsNumbered-snoc :
    (n : ℕ) (es : List RagBindingEvent) (e : RagBindingEvent)
    → IsNumbered n es
    → e.sequence ≡ n + length es
    → sequence_state e.sequence e.status ≡ true
    → IsNumbered n (es ++ e ∷ [])
IsNumbered-snoc n [] e h number state =
    let at : e.sequence ≡ n = omega (arith, number) in (at, rw at at state, tt)
IsNumbered-snoc n (f ∷ es) e h number state =
    (h.0, h.1, IsNumbered-snoc (suc n) es e h.2 (omega (arith, number)) state)

state_one : (x : BindingState) → sequence_state 1 x ≡ true → x ≡ BindingState.proposed
unfolding sequence_state
state_one x h = ground arith

state_two : (x : BindingState) → sequence_state 2 x ≡ true → x ≡ BindingState.approved
unfolding sequence_state
state_two x h = ground arith

state_three : (x : BindingState) → sequence_state 3 x ≡ true → x ≡ BindingState.revoked
unfolding sequence_state
state_three x h = ground arith

-- One more event is one step of the life of a binding.
grow :
    (es : List RagBindingEvent) (e : RagBindingEvent)
    → IsNumbered 1 (es ++ e ∷ [])
    → length es ≤ 2
    → state_of (last es) ⟶ state_of (last (es ++ e ∷ []))
unfolding last
grow [] e h short = rw (state_one e.status h.1) proposing
grow (a ∷ []) e h short = rw (state_one a.status h.1, state_two e.status h.2.1) approving
grow (a ∷ b ∷ []) e h short = rw (state_two b.status h.2.1, state_three e.status h.2.2.1) revoking
grow (a ∷ b ∷ c ∷ more) e h short = absurd (omega (arith, short))

events_of-snoc :
    (i b : ℕ) (s t : Rag) (e : RagBindingEvent)
    → t.binding_events ≡ s.binding_events ++ e ∷ []
    → events_of i b t ≡ events_of i b s ++ keep (is_event_of i b) (e ∷ [])
unfolding events_of
events_of-snoc i b s t e h =
    ap (keep (is_event_of i b)) h ∙ keep-append (is_event_of i b) s.binding_events (e ∷ [])

is_event_of_sound :
    (i b : ℕ) (e : RagBindingEvent)
    → is_event_of i b e ≡ true
    → (e.institution_id ≡ i) × (e.binding_id ≡ b)
unfolding is_event_of
is_event_of_sound i b e h = ground (arith, ==_iff e.institution_id i, ==_iff e.binding_id b)

same_events :
    (i b : ℕ) (s t : Rag) → t.binding_events ≡ s.binding_events → events_of i b t ≡ events_of i b s
unfolding events_of
same_events i b s t h = ap (keep (is_event_of i b)) h

fitting :
    (es : List RagBindingEvent) (e : RagBindingEvent)
    → IsHistory es
    → e.sequence ≡ last_sequence es + 1
    → e.sequence ≤ 3
    → sequence_state e.sequence e.status ≡ true
    → IsHistory (es ++ e ∷ []) × (length es ≤ 2)
fitting es e before next small state =
    let count = last_sequence_count es before.0 in
    (
      (
        IsNumbered-snoc 1 es e before.0 (omega (arith, next, count)) state,
        omega (arith, next, count, small, length-append es (e ∷ [])),
      ),
      omega (arith, next, count, small),
    )

-- One more event of this binding, or the same events.
pub Writes-cases :
    (s t : Rag)
    → Histories s
    → Writes s t
    → (i b : ℕ)
    → (events_of i b t ≡ events_of i b s)
      ⊎ ((e : RagBindingEvent) × (events_of i b t ≡ events_of i b s ++ e ∷ [])
          × IsHistory (events_of i b s ++ e ∷ [])
          × (length (events_of i b s) ≤ 2))
Writes-cases s t before (inl same) i b = inl (same_events i b s t same)
Writes-cases s t before (inr (e, fits, same)) i b = elim (Bool-cases (is_event_of i b e)) [
  | inl mine ↦
      let (at, at_b) = is_event_of_sound i b e mine in
      let (next, small, state) = fits in
      let (after, short) =
        fitting (events_of i b s) e (before i b) (rw (at, at_b) at next) small state in
      inr (
        e,
        events_of-snoc i b s t e same
            ∙ ap (λ more. events_of i b s ++ more) (keep_one (is_event_of i b) e mine),
        after,
        short,
      )
  | inr other ↦ inl (
      events_of-snoc i b s t e same
      ∙ ap (λ more. events_of i b s ++ more) (keep_other (is_event_of i b) e other)
      ∙ append_nothing (events_of i b s))
]

-- Histories stay histories.
pub Writes-Histories : (s t : Rag) → Histories s → Writes s t → Histories t
Writes-Histories s t before w i b = elim (Writes-cases s t before w i b) [
  | inl same ↦ rw same (before i b)
  | inr (e, more, after, _) ↦ rw more after
]

-- A binding's status stays, or takes one step of its life.
pub Writes-status :
    (s t : Rag)
    → Histories s
    → Writes s t
    → (i b : ℕ) → (status i b t ≡ status i b s) ⊎ (status i b s ⟶ status i b t)
Writes-status s t before w i b = elim (Writes-cases s t before w i b) [
  | inl same ↦ inl (ap (λ es. state_of (last es)) same)
  | inr (e, more, after, short) ↦ inr (rw more (grow (events_of i b s) e after.0 short))
]
