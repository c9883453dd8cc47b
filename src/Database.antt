-- ===== src/Database.antt =====
-- The database as the services see it: one table for each model of
-- apps/api/app/infrastructure/models that they read or write, and the shapes of their queries.
-- Ids, actors and times are numbers. A row keeps the columns that the services use, without the
-- audit columns (`source_type`, `source_reference`, `verification`), which they fill with fixed
-- texts.
mod Students
mod Recruitment
mod Policies
mod Conversation
mod Query
pub mod Sample
pub mod Numbering
pub mod Order
pub use Students.*
pub use Recruitment.*
pub use Policies.*
pub use Conversation.*
unfoldable pub use Query.*
use placement_assistant.Prelude.{ℕ, List}

-- app.core.security.Principal, of a verified token
pub record Principal : Type 0 where
  pub sub : ℕ
  pub institution_id : ℕ
  pub role : Role

pub record Db : Type 0 where
  pub users : List User
  pub students : List Student
  pub academic_records : List AcademicRecord
  pub backlogs : List Backlog
  pub backlog_events : List BacklogEvent
  pub offers : List Offer
  pub offer_events : List OfferEvent
  pub companies : List Company
  pub company_revisions : List CompanyRevision
  pub company_roles : List CompanyRole
  pub drives : List Drive
  pub opportunities : List Opportunity
  pub compensations : List Compensation
  pub policies : List Policy
  pub policy_versions : List PolicyVersion
  pub policy_events : List PolicyEvent
  pub policy_rules : List PolicyRule
  pub policy_activations : List PolicyActivation
  pub requirements : List Requirement
  pub requirement_versions : List RequirementVersion
  pub requirement_activations : List RequirementActivation
  pub criteria : List Criterion
  pub requirement_members : List RequirementMember
  pub decisions : List EligibilityDecision
  pub sessions : List ConversationSession
  pub messages : List ConversationMessage
