-- ===== src/Database/Students.antt =====
-- apps/api/app/infrastructure/models/students.py, and the roles of a principal.
use placement_assistant.Prelude.{ℕ, ℤ, Option}

pub data Role : Type 0 where
  student coordinator admin : Role

pub data UserStatus : Type 0 where
  active disabled : UserStatus

pub record User : Type 0 where
  pub id : ℕ
  pub institution_id : ℕ
  pub status : UserStatus

pub record Student : Type 0 where
  pub id : ℕ
  pub institution_id : ℕ
  pub user_id : Option ℕ

pub data ValueState : Type 0 where
  known unknown not_applicable : ValueState

-- A CGPA is a decimal, as numerator and denominator less one.
pub record AcademicRecord : Type 0 where
  pub student_id : ℕ
  pub version : ℕ
  pub cgpa : Option (ℤ × ℕ)
  pub cgpa_state : ValueState

pub record Backlog : Type 0 where
  pub id : ℕ
  pub student_id : ℕ

pub data BacklogKind : Type 0 where
  opened cleared corrected : BacklogKind

pub record BacklogEvent : Type 0 where
  pub backlog_id : ℕ
  pub version : ℕ
  pub kind : BacklogKind
