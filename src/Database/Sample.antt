-- ===== src/Database/Sample.antt =====
-- Data that the tests share: an institution, number 1, with two students and a coordinator.
use placement_assistant.Prelude.{ℕ, pos, none, some, [], ◌∷◌}
use placement_assistant.Value.{int, end, field, str}
use placement_assistant.Database.{
  Db, Principal, Role, User, UserStatus, DriveStatus, OpportunityStatus, PolicyStatus, ValueState,
}

abbrev pub empty : Db
empty = record {
  users = [];
  students = [];
  academic_records = [];
  backlogs = [];
  backlog_events = [];
  offers = [];
  offer_events = [];
  companies = [];
  company_revisions = [];
  company_roles = [];
  drives = [];
  opportunities = [];
  compensations = [];
  policies = [];
  policy_versions = [];
  policy_events = [];
  policy_rules = [];
  policy_activations = [];
  requirements = [];
  requirement_versions = [];
  requirement_activations = [];
  criteria = [];
  requirement_members = [];
  decisions = [];
  sessions = [];
  messages = [];
}

abbrev active_user : ℕ → User
active_user n = record { id = n; institution_id = 1; status = UserStatus.active }

abbrev pub campus : Db
campus = record empty {
  users = active_user 11 ∷ active_user 12 ∷ active_user 13 ∷ [];
  students =
      record { id = 101; institution_id = 1; user_id = some 11 }
      ∷ record { id = 102; institution_id = 1; user_id = some 12 }
      ∷ [];
}

abbrev pub anna : Principal
anna = record { sub = 11; institution_id = 1; role = Role.student }

abbrev pub ben : Principal
ben = record { sub = 12; institution_id = 1; role = Role.student }

abbrev pub carla : Principal
carla = record { sub = 13; institution_id = 1; role = Role.coordinator }

-- A season with one opportunity, number 3, whose published requirement has no criteria, and an active
-- policy that wants a CGPA of more than 7; the first student has 7.5.
abbrev pub season : Db
season = record campus {
  drives =
      record {
        id = 2;
        institution_id = 1;
        company_id = 1;
        academic_year_id = 9;
        announced_at = none;
        scheduled_at = none;
        status = DriveStatus.announced;
      }
      ∷ [];
  opportunities =
      record {
        id = 3;
        institution_id = 1;
        company_id = 1;
        role_id = 1;
        drive_id = 2;
        deadline = none;
        status = OpportunityStatus.open_now;
      }
      ∷ [];
  policy_versions =
      record {
        id = 4;
        institution_id = 1;
        policy_id = 1;
        version = 1;
        academic_year_id = 9;
        scope = "ALL";
        status = PolicyStatus.active;
        schema_version = 1;
        definition = end;
        effective_at = 0;
      }
      ∷ [];
  policy_activations =
      record {
        id = 5;
        institution_id = 1;
        policy_version_id = 4;
        academic_year_id = 9;
        scope = "ALL";
        starts_at = 10;
        ends_at = none;
      }
      ∷ [];
  policy_rules =
      record {
        id = 6;
        institution_id = 1;
        policy_version_id = 4;
        code = "academic.cgpa";
        definition = field "operator" (str ">") (field "value" (int (pos 7)) end);
      }
      ∷ [];
  requirements = record { id = 1; institution_id = 1; opportunity_id = 3 } ∷ [];
  requirement_activations =
      record {
        institution_id = 1;
        requirement_id = 1;
        requirement_version_id = 7;
        starts_at = 1;
        ends_at = none;
      }
      ∷ [];
  requirement_versions =
      record {
        id = 7;
        institution_id = 1;
        requirement_id = 1;
        compensation_id = 1;
        version = 1;
        effective_at = 0;
        published_at = some 1;
      }
      ∷ [];
  academic_records =
      record {
        student_id = 101;
        version = 1;
        cgpa = some (pos 15, 1);
        cgpa_state = ValueState.known;
      }
      ∷ [];
}
