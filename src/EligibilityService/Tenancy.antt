-- ===== src/EligibilityService/Tenancy.antt =====
-- An evaluation stays within the caller's institution.
use placement_assistant.Prelude.{
  ℕ, ◌≡◌, ◌≢◌, refl, Error, err, List, [], ◌∷◌, keep, All, Bool-cases, inl, inr, arith, ==_iff,
}
use placement_assistant.Prelude.Reading.{on_ok-err, on_ok-raised}
use placement_assistant.Database.{Db, Principal, Student, one_or_none}
use placement_assistant.EligibilityService.Snapshot.{
  Context, prepare, drive_of, with_drive, with_policy, with_snapshot, build_snapshot,
  get_active_policy, in_institution,
}
use placement_assistant.EligibilityService.{evaluate}

-- Whoever has that id is a student of another institution.
abbrev pub IsForeign : Principal → ℕ → Student → Type 0
IsForeign p student_id s = s.id ≡ student_id → s.institution_id ≢ p.institution_id

foreign-unfound :
    (p : Principal) (student_id : ℕ) (students : List Student)
    → All (IsForeign p student_id) students
    → keep (in_institution student_id p) students ≡ []
unfolding keep
foreign-unfound p student_id [] h = refl
foreign-unfound p student_id (s ∷ students) h = elim (Bool-cases (in_institution student_id p s)) [
  | inl found ↦ absurd (
      h.0 (ground (arith, ==_iff s.id student_id))
        (ground (arith, ==_iff s.institution_id p.institution_id)))
  | inr other ↦ rw other (foreign-unfound p student_id students h.1)
]

module _ (context : Context) (p : Principal) (student_id opportunity_id : ℕ) where
  build_snapshot-foreign :
      (db : Db)
      → keep (in_institution student_id p) db.students ≡ []
      → (e : Error) × (build_snapshot context p student_id opportunity_id db ≡ err e)
  unfolding build_snapshot one_or_none
  build_snapshot-foreign db h = rw h (_, refl)

  prepare-foreign :
      (db : Db)
      → keep (in_institution student_id p) db.students ≡ []
      → (e : Error) × (prepare context p student_id opportunity_id db ≡ err e)
  unfolding prepare with_drive with_policy
  prepare-foreign db h =
      on_ok-err (drive_of p opportunity_id db) (with_drive context p student_id opportunity_id) db
        λ drive.
          on_ok-err (get_active_policy p drive.academic_year_id "ALL" context.now db)
            (with_policy context p student_id opportunity_id) db
            λ version.
              on_ok-raised (build_snapshot context p student_id opportunity_id db)
                (with_snapshot version.id) db (build_snapshot-foreign db h)

  -- No student of another institution is evaluated, nor one who does not exist: when every student with
  -- that id is of another institution than the caller, the call raises, changes nothing, and does not
  -- reach the commit.
  pub evaluate_foreign :
      (req_version_id : ℕ) (meanwhile : Db → Db) (db : Db)
      → All (IsForeign p student_id) db.students
      → (e : Error) × (evaluate context p student_id opportunity_id req_version_id meanwhile db
          ≡ (err e, db))
  unfolding evaluate
  evaluate_foreign req_version_id meanwhile db h =
      let (e, raised) = prepare-foreign db (foreign-unfound p student_id db.students h) in
      (e, rw raised refl)
