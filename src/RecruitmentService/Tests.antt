-- ===== src/RecruitmentService/Tests.antt =====
-- An opportunity that is created, and one that is closed.
use placement_assistant.Prelude.{◌≡◌, refl, ap, none, [], ◌∷◌, Result, ok, keep, any}
use placement_assistant.Database.{
  Db, Company, CompanyRole, Drive, DriveStatus, Opportunity, OpportunityStatus, one_or_none,
}
use placement_assistant.Database.Sample.{campus, carla}
use placement_assistant.Repositories.{get_by_id, in_tenant, insert}
use placement_assistant.RecruitmentService.References.{
  IsReferenced, create_opportunity-IsReferenced,
}
use placement_assistant.RecruitmentService.{
  OpportunityDraft, create_opportunity, with_company, with_role, with_drive, add_opportunity,
  close_opportunity, close, is_closed, set_closed, opportunity_of,
}

abbrev company : Company
company = record { id = 5; institution_id = 1; code = "ACME" }

abbrev company_role : CompanyRole
company_role = record {
  id = 6;
  institution_id = 1;
  company_id = 5;
  code = "DEV";
  title = "Developer";
}

abbrev drive : Drive
drive = record {
  id = 2;
  institution_id = 1;
  company_id = 5;
  academic_year_id = 9;
  announced_at = none;
  scheduled_at = none;
  status = DriveStatus.draft;
}

abbrev fair : Db
fair = record campus {
  companies = company ∷ [];
  company_roles = company_role ∷ [];
  drives = drive ∷ [];
}

abbrev given : OpportunityDraft
given = record { role_id = 6; drive_id = 2; deadline = none; status = OpportunityStatus.open_now }

abbrev made : Opportunity
made = opportunity_of carla 3 given company company_role drive

run_creates : (create_opportunity carla 3 5 given fair).0 ≡ ok made
unfolding create_opportunity with_company with_role with_drive add_opportunity get_by_id in_tenant
    insert keep any one_or_none
run_creates = refl

create_opportunity-IsReferenced_example :
    IsReferenced carla 3 5 given fair made (create_opportunity carla 3 5 given fair).1
create_opportunity-IsReferenced_example =
    create_opportunity-IsReferenced carla 3 5 given made fair
      (create_opportunity carla 3 5 given fair).1
      (ap (λ (r : Result Opportunity). (r, (create_opportunity carla 3 5 given fair).1))
        run_creates)

abbrev open_fair : Db
open_fair = record fair { opportunities = made ∷ [] }

run_closes : (close_opportunity carla 3 open_fair).0 ≡ ok (set_closed made)
unfolding close_opportunity close is_closed get_by_id in_tenant keep one_or_none
run_closes = refl
