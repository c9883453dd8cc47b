-- ===== src/EligibilityService/Snapshot.antt =====
-- What an evaluation reads first: `_get_active_policy` and `build_snapshot` of
-- apps/api/app/core/services/eligibility_service.py. The query for the student's revision is left
-- out: nothing uses what it returns.
use placement_assistant.Prelude.{
  ℕ, suc, ℤ, pos, String, Bool, true, false, ◌&&◌, Option, none, some, List, [], ◌∷◌, ◌++◌, keep,
  Result, ok, err, http, http_detail, ◌==◌, leb, ltb, str_eq, if◌then◌else◌,
}
use placement_assistant.Prelude.Reading.{Reading, ◌>>=◌, give, ask, found_or}
use placement_assistant.Value.{Value, null, int, float, str, dict, Fields, end, field}
use placement_assistant.Database.{
  Db, Principal, Student, ValueState, AcademicRecord, Backlog, BacklogKind, BacklogEvent, Offer,
  OfferKind, OfferEvent, Drive, Opportunity, PolicyActivation, PolicyVersion, PolicyStatus,
  one_or_none, greatest,
}

-- The libraries, the clock and the id that a new row gets.
pub record Context : Type 0 where
  pub str_id : ℕ → String
  pub dumps : Fields → String
  pub sha256 : String → String
  pub now : ℕ
  pub new_id : ℕ

open_at : ℕ → Option ℕ → Bool
open_at time none = true
open_at time (some ends_at) = ltb time ends_at

unfoldable pub active_at : Principal → ℕ → String → ℕ → PolicyActivation → Bool
unfolding open_at
active_at p academic_year_id scope time a =
    a.institution_id == p.institution_id
    && a.academic_year_id == academic_year_id
    && str_eq a.scope scope
    && leb a.starts_at time
    && open_at time a.ends_at

pub is_active_version : PolicyStatus → Bool
is_active_version PolicyStatus.active = true
is_active_version _ = false

-- The join of the activations with the versions that they name, where these are ACTIVE.
unfoldable pub joined : List PolicyActivation → List PolicyVersion → List PolicyVersion
unfolding is_active_version
joined [] versions = []
joined (a ∷ rest) versions =
    keep (λ v. a.policy_version_id == v.id && is_active_version v.status) versions
    ++ joined rest versions

unfoldable pub only_policy : List PolicyVersion → Result PolicyVersion
only_policy [] = err (http 400 "NO_ACTIVE_POLICY")
only_policy (v ∷ []) = ok v
only_policy (v ∷ w ∷ more) = err (http 500 "POLICY_AMBIGUITY")

unfoldable pub get_active_policy : Principal → ℕ → String → ℕ → Reading Db PolicyVersion
unfolding joined active_at only_policy
get_active_policy p academic_year_id scope time db = only_policy (
    joined (keep (active_at p academic_year_id scope time) db.policy_activations)
      db.policy_versions)

decimal : Option (ℤ × ℕ) → Value
decimal none = null
decimal (some (n, d)) = float n d

known_or_null : ValueState → Value → Value
known_or_null ValueState.known v = v
known_or_null _ v = null

cgpa_of : Option AcademicRecord → Value
unfolding decimal known_or_null
cgpa_of none = null
cgpa_of (some r) = known_or_null r.cgpa_state (decimal r.cgpa)

is_opened : Option BacklogEvent → Bool
is_opened none = false
is_opened (some e) = elim e.kind [
  | BacklogKind.opened ↦ true
  | BacklogKind.cleared ↦ false
  | BacklogKind.corrected ↦ false
]

-- The loop over the backlogs, with the latest event of each.
open_backlogs : List BacklogEvent → List Backlog → ℕ
unfolding is_opened
open_backlogs events [] = 0
open_backlogs events (b ∷ bs) =
    let rest = open_backlogs events bs in
    if is_opened (greatest (λ e. e.version) (keep (λ e. e.backlog_id == b.id) events))
    then suc rest
    else rest

is_active_kind : OfferKind → Bool
is_active_kind OfferKind.received = true
is_active_kind OfferKind.accepted = true
is_active_kind OfferKind.terms_revised = true
is_active_kind _ = false

is_active_offer : Option OfferEvent → Bool
unfolding is_active_kind
is_active_offer none = false
is_active_offer (some e) = is_active_kind e.kind

active_offers : List OfferEvent → List Offer → ℕ
unfolding is_active_offer
active_offers events [] = 0
active_offers events (o ∷ os) =
    let rest = active_offers events os in
    if is_active_offer (greatest (λ e. e.version) (keep (λ e. e.offer_id == o.id) events))
    then suc rest
    else rest

abbrev pub in_institution : ℕ → Principal → Student → Bool
in_institution student_id p s = s.id == student_id && s.institution_id == p.institution_id

abbrev count : ℕ → Value
count n = int (pos n)

unfoldable pub build_snapshot : Context → Principal → ℕ → ℕ → Reading Db Fields
unfolding cgpa_of open_backlogs active_offers
build_snapshot context p student_id opportunity_id = do
  found ← (λ db. one_or_none (keep (in_institution student_id p) db.students))
  student ← found_or (http_detail 404 "Student not found") found
  academic_record ←
      ask (λ db.
        greatest (λ r. r.version) (keep (λ r. r.student_id == student_id) db.academic_records))
  open_backlog_count ←
      ask
        (λ db. open_backlogs db.backlog_events (keep (λ b. b.student_id == student_id) db.backlogs))
  active_offer_count ←
      ask (λ db. active_offers db.offer_events (keep (λ o. o.student_id == student_id) db.offers))
  give (
      field "student_id" (str (context.str_id student_id)) (
        field "opportunity_id" (str (context.str_id opportunity_id)) (
          field "academic"
            (dict (
              field "cgpa" (cgpa_of academic_record)
                (field "backlogs" (count open_backlog_count) end)))
            (field "placement_history"
              (dict (field "active_offer_count" (count active_offer_count) end)) end))))

-- The join of the opportunities with their drives.
drives_of : List Opportunity → List Drive → List Drive
drives_of [] drives = []
drives_of (o ∷ os) drives = keep (λ d. o.drive_id == d.id) drives ++ drives_of os drives

first : {A : Type 0} → List A → Option A
first [] = none
first (x ∷ xs) = some x

-- What `evaluate` has read before it computes the evaluation key.
pub record Prepared : Type 0 where
  pub policy_version_id : ℕ
  pub snapshot : Fields

unfoldable pub drive_of : Principal → ℕ → Reading Db Drive
unfolding drives_of first
drive_of p opportunity_id = do
  found ← ask (λ db. first (
      drives_of
        (keep (λ o. o.id == opportunity_id && o.institution_id == p.institution_id)
          db.opportunities)
        db.drives))
  found_or (http_detail 404 "Opportunity not found") found

unfoldable pub with_snapshot : ℕ → Fields → Reading Db Prepared
with_snapshot policy_version_id snapshot =
    give (record { policy_version_id = policy_version_id; snapshot = snapshot })

module _ (context : Context) (p : Principal) (student_id opportunity_id : ℕ) where
  unfoldable pub with_policy : PolicyVersion → Reading Db Prepared
  with_policy version = do
    snapshot ← build_snapshot context p student_id opportunity_id
    with_snapshot version.id snapshot

  unfoldable pub with_drive : Drive → Reading Db Prepared
  with_drive drive = do
    version ← get_active_policy p drive.academic_year_id "ALL" context.now
    with_policy version

  unfoldable pub prepare : Reading Db Prepared
  prepare = do drive ← drive_of p opportunity_id; with_drive drive
