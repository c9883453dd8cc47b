-- ===== src/PolicyService/Audit/Life.antt =====
-- What the events of a policy version say of its life.
use mathlib.Core.List.{append-nil, map-append}
use placement_assistant.Prelude.{
  ℕ, suc, ◌+◌, ◌≤◌, Bool, true, false, ◌&&◌, ◌≡◌, refl, sym, ap, ◌∙◌, Option, none, some, List, [],
  ◌∷◌, ◌++◌, map, keep, keep_one, keep_other, keep-append, All, length, ◌==◌, length-map,
}
use placement_assistant.Database.{
  Db, Principal, PolicyStatus, draft, processing, review, approved, active, archived, PolicyVersion,
  PolicyEvent,
}
use placement_assistant.Database.Numbering.{CountsFrom, last_number}
use placement_assistant.PolicyService.Transition.{Edge, process, submit, approve, activate, archive}
use placement_assistant.PolicyService.{latest_event_version}

-- What an event says.
pub record Step : Type 0 where
  pub from_status : Option PolicyStatus
  pub status : PolicyStatus
  pub number : ℕ

abbrev pub step_of : PolicyEvent → Step
step_of e = record { from_status = e.from_status; status = e.status; number = e.version }

abbrev pub of_version : ℕ → ℕ → PolicyEvent → Bool
of_version i id e = e.institution_id == i && e.policy_version_id == id

abbrev pub history : ℕ → ℕ → List PolicyEvent → List Step
history i id events = map step_of (keep (of_version i id) events)

abbrev pub creation : Step
creation = record { from_status = none; status = draft; number = 1 }

abbrev pub step : PolicyStatus → PolicyStatus → ℕ → Step
step from_status to_status n = record {
  from_status = some from_status;
  status = to_status;
  number = n;
}

-- All that happened to a version before it has this status.
abbrev pub life : PolicyStatus → List Step
life draft = creation ∷ []
life processing = creation ∷ step draft processing 2 ∷ []
life review = creation ∷ step draft processing 2 ∷ step processing review 3 ∷ []
life approved =
    creation ∷ step draft processing 2 ∷ step processing review 3 ∷ step review approved 4 ∷ []
life active =
    creation
    ∷ step draft processing 2
    ∷ step processing review 3
    ∷ step review approved 4
    ∷ step approved active 5
    ∷ []
life archived =
    creation
    ∷ step draft processing 2
    ∷ step processing review 3
    ∷ step review approved 4
    ∷ step approved active 5
    ∷ step active archived 6
    ∷ []

abbrev pub Audited : List PolicyEvent → PolicyVersion → Type 0
Audited events v = history v.institution_id v.id events ≡ life v.status

pub record IsAudited (db : Db) : Type 0 where
  pub key : (id : ℕ) → length (keep (λ (v : PolicyVersion). v.id == id) db.policy_versions) ≤ 1
  pub lives : All (Audited db.policy_events) db.policy_versions

pub life-Edge :
    (s t : PolicyStatus) → Edge s t → life t ≡ life s ++ step s t (length (life s) + 1) ∷ []
life-Edge _ _ process = refl
life-Edge _ _ submit = refl
life-Edge _ _ approve = refl
life-Edge _ _ activate = refl
life-Edge _ _ archive = refl

life-CountsFrom : (s : PolicyStatus) → CountsFrom (λ (st : Step). st.number) 1 (life s)
life-CountsFrom draft = (refl, tt)
life-CountsFrom processing = (refl, (refl, tt))
life-CountsFrom review = (refl, (refl, (refl, tt)))
life-CountsFrom approved = (refl, (refl, (refl, (refl, tt))))
life-CountsFrom active = (refl, (refl, (refl, (refl, (refl, tt)))))
life-CountsFrom archived = (refl, (refl, (refl, (refl, (refl, (refl, tt))))))

CountsFrom-map :
    (k : ℕ) (events : List PolicyEvent)
    → CountsFrom (λ (st : Step). st.number) k (map step_of events)
    → CountsFrom (λ (e : PolicyEvent). e.version) k events
CountsFrom-map k [] h = tt
CountsFrom-map k (e ∷ events) h = (h.0, CountsFrom-map (suc k) events h.1)

pub history-append :
    (i id : ℕ) (events : List PolicyEvent) (e : PolicyEvent)
    → of_version i id e ≡ true
    → history i id (events ++ e ∷ []) ≡ history i id events ++ step_of e ∷ []
unfolding keep
history-append i id events e mine =
    ap (map step_of) (
      keep-append (of_version i id) events (e ∷ [])
      ∙ ap (λ rest. keep (of_version i id) events ++ rest) (keep_one (of_version i id) e mine))
    ∙ map-append step_of (keep (of_version i id) events) (e ∷ [])

pub history-other :
    (i id : ℕ) (events : List PolicyEvent) (e : PolicyEvent)
    → of_version i id e ≡ false
    → history i id (events ++ e ∷ []) ≡ history i id events
unfolding keep
history-other i id events e other = ap (map step_of) (
    keep-append (of_version i id) events (e ∷ [])
    ∙ ap (λ rest. keep (of_version i id) events ++ rest) (keep_other (of_version i id) e other)
    ∙ append-nil _)

-- The number of the latest event of a version with that status.
pub latest-life :
    (p : Principal) (id : ℕ) (s : PolicyStatus) (db : Db)
    → history p.institution_id id db.policy_events ≡ life s
    → latest_event_version p id db ≡ length (life s)
latest-life p id s db h =
    let rows = keep (of_version p.institution_id id) db.policy_events in
    let counts : CountsFrom (λ (e : PolicyEvent). e.version) 1 rows =
      CountsFrom-map 1 rows (rw h (life-CountsFrom s)) in
    last_number (λ (e : PolicyEvent). e.version) rows counts
    ∙ sym (length-map step_of rows)
    ∙ ap length h
