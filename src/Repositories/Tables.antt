-- ===== src/Repositories/Tables.antt =====
-- The tables of the repositories in apps/api/app/infrastructure/repositories/recruitment.py, and those
-- in policy.py beside it.
use placement_assistant.Database.{
  Policy, PolicyVersion, PolicyRule, PolicyActivation, Company, CompanyRole, Drive, Opportunity,
  Requirement, RequirementVersion, Compensation, Criterion, RequirementMember,
}
use placement_assistant.Repositories.{Table}

abbrev pub companies : Table Company
companies = record {
  id_of = λ r. r.id;
  institution_of = λ r. r.institution_id;
  rows = λ db. db.companies;
  put = λ rows db. record db { companies = rows };
}

abbrev pub roles : Table CompanyRole
roles = record {
  id_of = λ r. r.id;
  institution_of = λ r. r.institution_id;
  rows = λ db. db.company_roles;
  put = λ rows db. record db { company_roles = rows };
}

abbrev pub drives : Table Drive
drives = record {
  id_of = λ r. r.id;
  institution_of = λ r. r.institution_id;
  rows = λ db. db.drives;
  put = λ rows db. record db { drives = rows };
}

abbrev pub opportunities : Table Opportunity
opportunities = record {
  id_of = λ r. r.id;
  institution_of = λ r. r.institution_id;
  rows = λ db. db.opportunities;
  put = λ rows db. record db { opportunities = rows };
}

abbrev pub requirements : Table Requirement
requirements = record {
  id_of = λ r. r.id;
  institution_of = λ r. r.institution_id;
  rows = λ db. db.requirements;
  put = λ rows db. record db { requirements = rows };
}

abbrev pub requirement_versions : Table RequirementVersion
requirement_versions = record {
  id_of = λ r. r.id;
  institution_of = λ r. r.institution_id;
  rows = λ db. db.requirement_versions;
  put = λ rows db. record db { requirement_versions = rows };
}

abbrev pub compensations : Table Compensation
compensations = record {
  id_of = λ r. r.id;
  institution_of = λ r. r.institution_id;
  rows = λ db. db.compensations;
  put = λ rows db. record db { compensations = rows };
}

abbrev pub criteria : Table Criterion
criteria = record {
  id_of = λ r. r.id;
  institution_of = λ r. r.institution_id;
  rows = λ db. db.criteria;
  put = λ rows db. record db { criteria = rows };
}

abbrev pub members : Table RequirementMember
members = record {
  id_of = λ r. r.id;
  institution_of = λ r. r.institution_id;
  rows = λ db. db.requirement_members;
  put = λ rows db. record db { requirement_members = rows };
}

abbrev pub policies : Table Policy
policies = record {
  id_of = λ r. r.id;
  institution_of = λ r. r.institution_id;
  rows = λ db. db.policies;
  put = λ rows db. record db { policies = rows };
}

abbrev pub versions : Table PolicyVersion
versions = record {
  id_of = λ r. r.id;
  institution_of = λ r. r.institution_id;
  rows = λ db. db.policy_versions;
  put = λ rows db. record db { policy_versions = rows };
}

abbrev pub rules : Table PolicyRule
rules = record {
  id_of = λ r. r.id;
  institution_of = λ r. r.institution_id;
  rows = λ db. db.policy_rules;
  put = λ rows db. record db { policy_rules = rows };
}

abbrev pub activations : Table PolicyActivation
activations = record {
  id_of = λ r. r.id;
  institution_of = λ r. r.institution_id;
  rows = λ db. db.policy_activations;
  put = λ rows db. record db { policy_activations = rows };
}
