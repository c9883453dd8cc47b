-- ===== src/Database/Recruitment.antt =====
-- apps/api/app/infrastructure/models/recruitment.py.
use placement_assistant.Prelude.{ℕ, ℤ, String, Option}

pub record Company : Type 0 where
  pub id : ℕ
  pub institution_id : ℕ
  pub code : String

pub record CompanyRevision : Type 0 where
  pub institution_id : ℕ
  pub company_id : ℕ
  pub name : String
  pub version : ℕ
  pub effective_at : ℕ

pub record CompanyRole : Type 0 where
  pub id : ℕ
  pub institution_id : ℕ
  pub company_id : ℕ
  pub code : String
  pub title : String

pub data DriveStatus : Type 0 where
  draft announced closed cancelled : DriveStatus

pub record Drive : Type 0 where
  pub id : ℕ
  pub institution_id : ℕ
  pub company_id : ℕ
  pub academic_year_id : ℕ
  pub announced_at : Option ℕ
  pub scheduled_at : Option ℕ
  pub status : DriveStatus

pub data OpportunityStatus : Type 0 where
  draft open_now closed cancelled : OpportunityStatus

pub record Opportunity : Type 0 where
  pub id : ℕ
  pub institution_id : ℕ
  pub company_id : ℕ
  pub role_id : ℕ
  pub drive_id : ℕ
  pub deadline : Option ℕ
  pub status : OpportunityStatus

-- The columns of a compensation that a caller gives; amounts are decimals, as numerator and
-- denominator less one.
pub record CompensationTerms : Type 0 where
  pub original_text : String
  pub currency : String
  pub period : String
  pub basis : String
  pub shape : String
  pub amount : Option (ℤ × ℕ)
  pub minimum : Option (ℤ × ℕ)
  pub maximum : Option (ℤ × ℕ)
  pub comparison_state : String
  pub annual_inr : Option (ℤ × ℕ)
  pub review_reason : Option String

pub record Compensation : Type 0 where
  pub id : ℕ
  pub institution_id : ℕ
  pub terms : CompensationTerms

pub record Offer : Type 0 where
  pub id : ℕ
  pub student_id : ℕ

pub data OfferKind : Type 0 where
  received accepted rejected revoked withdrawn expired terms_revised corrected : OfferKind

pub record OfferEvent : Type 0 where
  pub offer_id : ℕ
  pub version : ℕ
  pub kind : OfferKind
