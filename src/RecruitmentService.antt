-- ===== src/RecruitmentService.antt =====
-- The services of companies and opportunities: company_service.py and opportunity_service.py in
-- apps/api/app/core/services. Of the constraints that a flush checks, the unique ones on these tables
-- and the announcement of a drive are modelled; the academic year of a drive is no table here.
pub mod Closing
pub mod References
mod Tests
use placement_assistant.Prelude.{
  ℕ, ◌+◌, String, Bool, true, false, not, ◌&&◌, ◌||◌, Option, none, some, List, [], ◌∷◌, ◌++◌, keep,
  any, replace, is_some, Result, ok, err, http, http_detail, integrity_error, Action, ◌>>=◌, ◌>>◌,
  pure, gets, or_raise, raise_if, modify, ◌==◌, str_eq, if◌then◌else◌,
}
use placement_assistant.Database.{
  Db, Principal, Company, CompanyRevision, CompanyRole, Drive, DriveStatus, Opportunity,
  OpportunityStatus, greatest, column_or_zero,
}
use placement_assistant.Repositories.{Table, get_by_id, insert, update}
use placement_assistant.Repositories.Tables.{companies, roles, drives, opportunities}

abbrev set_closed : Opportunity → Opportunity
set_closed o = record o { status = OpportunityStatus.closed }

pub is_closed : OpportunityStatus → Bool
is_closed OpportunityStatus.closed = true
is_closed _ = false

is_draft : DriveStatus → Bool
is_draft DriveStatus.draft = true
is_draft _ = false

-- What a caller gives for a drive, and for an opportunity.
pub record DriveDraft : Type 0 where
  pub academic_year_id : ℕ
  pub announced_at : Option ℕ
  pub scheduled_at : Option ℕ
  pub status : DriveStatus

pub record OpportunityDraft : Type 0 where
  pub role_id : ℕ
  pub drive_id : ℕ
  pub deadline : Option ℕ
  pub status : OpportunityStatus

module _ (p : Principal) where
  abbrev revision : ℕ → ℕ → String → ℕ → CompanyRevision
  revision company_id now name version = record {
    institution_id = p.institution_id;
    company_id = company_id;
    name = name;
    version = version;
    effective_at = now;
  }

  add_revision : CompanyRevision → Action Db CompanyRevision
  add_revision r = do
    modify (λ db. record db { company_revisions = db.company_revisions ++ r ∷ [] })
    pure r

  pub create_company : ℕ → ℕ → String → String → Action Db CompanyRevision
  unfolding add_revision
  create_company new_id now code name = do
    taken ←
        gets
          (λ db. any (λ c. c.institution_id == p.institution_id && str_eq c.code code) db.companies)
    raise_if taken integrity_error
    insert companies p.institution_id
        (record { id = new_id; institution_id = p.institution_id; code = code })
    add_revision (revision new_id now name 1)

  abbrev pub of_company : ℕ → CompanyRevision → Bool
  of_company company_id r = r.institution_id == p.institution_id && r.company_id == company_id

  abbrev pub revision_number : CompanyRevision → ℕ
  revision_number r = r.version

  found_company : ℕ → Action Db Company
  found_company company_id = do
    found ← get_by_id companies p.institution_id company_id
    or_raise (http_detail 404 "Company not found") found

  pub update_company : ℕ → ℕ → String → Action Db CompanyRevision
  unfolding found_company add_revision
  update_company company_id now name = do
    company ← found_company company_id
    latest ← gets (λ db.
        column_or_zero revision_number
          (greatest revision_number (keep (of_company company_id) db.company_revisions)))
    add_revision (revision company.id now name (latest + 1))

  pub create_role : ℕ → ℕ → String → String → Action Db CompanyRole
  unfolding found_company
  create_role new_id company_id code title = do
    company ← found_company company_id
    taken ← gets (λ db.
        any
          (λ r.
            r.institution_id == p.institution_id
            && r.company_id == company.id
            && str_eq r.code code)
          db.company_roles)
    raise_if taken integrity_error
    insert roles p.institution_id (record {
      id = new_id;
      institution_id = p.institution_id;
      company_id = company.id;
      code = code;
      title = title;
    })

  pub create_drive : ℕ → ℕ → DriveDraft → Action Db Drive
  unfolding found_company is_draft
  create_drive new_id company_id given = do
    company ← found_company company_id
    raise_if (not (is_draft given.status || is_some given.announced_at)) integrity_error
    insert drives p.institution_id (record {
      id = new_id;
      institution_id = p.institution_id;
      company_id = company.id;
      academic_year_id = given.academic_year_id;
      announced_at = given.announced_at;
      scheduled_at = given.scheduled_at;
      status = given.status;
    })

  abbrev slot_taken : CompanyRole → Drive → Db → Bool
  slot_taken role drive db =
      any
        (λ o.
          o.institution_id == p.institution_id && o.drive_id == drive.id && o.role_id == role.id)
        db.opportunities

  abbrev opportunity_of : ℕ → OpportunityDraft → Company → CompanyRole → Drive → Opportunity
  opportunity_of new_id given company role drive = record {
    id = new_id;
    institution_id = p.institution_id;
    company_id = company.id;
    role_id = role.id;
    drive_id = drive.id;
    deadline = given.deadline;
    status = given.status;
  }

  -- The opportunity of the three rows that were found.
  add_opportunity : ℕ → OpportunityDraft → Company → CompanyRole → Drive → Action Db Opportunity
  add_opportunity new_id given company role drive = do
    taken ← gets (slot_taken role drive)
    raise_if taken integrity_error
    insert opportunities p.institution_id (opportunity_of new_id given company role drive)

  with_drive : ℕ → OpportunityDraft → Company → CompanyRole → Option Drive → Action Db Opportunity
  unfolding add_opportunity
  with_drive new_id given company role found_drive = do
    drive ← or_raise (http_detail 404 "Drive not found for this company") found_drive
    raise_if (not (drive.company_id == company.id))
        (http_detail 404 "Drive not found for this company")
    add_opportunity new_id given company role drive

  with_role : ℕ → OpportunityDraft → Company → Option CompanyRole → Action Db Opportunity
  unfolding with_drive
  with_role new_id given company found_role = do
    role ← or_raise (http_detail 404 "Role not found") found_role
    raise_if (not (role.company_id == company.id))
        (http_detail 409 "Role does not belong to the specified company")
    found_drive ← get_by_id drives p.institution_id given.drive_id
    with_drive new_id given company role found_drive

  with_company : ℕ → OpportunityDraft → Option Company → Action Db Opportunity
  unfolding with_role
  with_company new_id given found = do
    company ← or_raise (http_detail 404 "Company not found") found
    found_role ← get_by_id roles p.institution_id given.role_id
    with_role new_id given company found_role

  pub create_opportunity : ℕ → ℕ → OpportunityDraft → Action Db Opportunity
  unfolding with_company
  create_opportunity new_id company_id given = do
    found ← get_by_id companies p.institution_id company_id
    with_company new_id given found

  -- The ORM writes the row back by its primary key.
  close : Opportunity → Action Db Opportunity
  unfolding is_closed
  close o = if is_closed o.status then pure o else do
    modify (λ db. record db {
      opportunities = replace (λ x. x.id == o.id) set_closed db.opportunities;
    })
    pure (set_closed o)

  pub close_opportunity : ℕ → Action Db Opportunity
  close_opportunity opportunity_id = do
    found ← get_by_id opportunities p.institution_id opportunity_id
    o ← or_raise (http_detail 404 "Opportunity not found") found
    close o
