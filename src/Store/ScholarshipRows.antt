-- ===== src/Store/ScholarshipRows.antt =====
-- The rows of the scholarship tables, and their conversions to entities
-- (crates/infrastructure/src/persistence/repos.rs).
use edustell.Common.{ℕ, String, Option, ℤ, ok, ◌>>=◌}
use edustell.Domain.Status.{
  scholarship_pool_status_enum, scholarship_application_status_enum, scholarship_award_status_enum,
  donor_contribution_status_enum,
}
use edustell.Domain.Records.{
  ScholarshipPool, ScholarshipApplication, ScholarshipAward, DonorContribution,
}
use edustell.Store.Env.{Stored}
use edustell.Store.Rows.{parse_money, parse_status}

pub record ScholarshipPoolRow : Type 0 where
  pub id : ℕ
  pub owner_user_id : ℕ
  pub name : String
  pub description : Option String
  pub status : String
  pub available_funds_minor : ℤ
  pub currency : String
  pub geography_restriction : Option String
  pub education_level_restriction : Option String
  pub school_id_restriction : Option ℕ
  pub category_restriction : Option String
  pub created_at : ℕ
  pub updated_at : ℕ

unfoldable pub try_pool : ScholarshipPoolRow → Stored ScholarshipPool
try_pool v = do
  status ← parse_status ⦃e = scholarship_pool_status_enum⦄ v.status
  available_funds ← parse_money v.available_funds_minor v.currency
  ok (record {
    id = v.id;
    owner_user_id = v.owner_user_id;
    name = v.name;
    description = v.description;
    status = status;
    available_funds = available_funds;
    geography_restriction = v.geography_restriction;
    education_level_restriction = v.education_level_restriction;
    school_id_restriction = v.school_id_restriction;
    category_restriction = v.category_restriction;
    created_at = v.created_at;
    updated_at = v.updated_at;
  })

pub record ScholarshipApplicationRow : Type 0 where
  pub id : ℕ
  pub pool_id : ℕ
  pub applicant_user_id : ℕ
  pub child_profile_id : ℕ
  pub student_country : Option String
  pub education_level : Option String
  pub school_id : Option ℕ
  pub category : Option String
  pub status : String
  pub notes : Option String
  pub created_at : ℕ
  pub updated_at : ℕ

unfoldable pub try_application : ScholarshipApplicationRow → Stored ScholarshipApplication
try_application v = do
  status ← parse_status ⦃e = scholarship_application_status_enum⦄ v.status
  ok (record {
    id = v.id;
    pool_id = v.pool_id;
    applicant_user_id = v.applicant_user_id;
    child_profile_id = v.child_profile_id;
    student_country = v.student_country;
    education_level = v.education_level;
    school_id = v.school_id;
    category = v.category;
    status = status;
    notes = v.notes;
    created_at = v.created_at;
    updated_at = v.updated_at;
  })

pub record ScholarshipAwardRow : Type 0 where
  pub id : ℕ
  pub application_id : ℕ
  pub decided_by : ℕ
  pub amount_minor : ℤ
  pub currency : String
  pub status : String
  pub decision_notes : Option String
  pub linked_payout_request_id : Option ℕ
  pub linked_vault_id : Option ℕ
  pub created_at : ℕ
  pub updated_at : ℕ

unfoldable pub try_award : ScholarshipAwardRow → Stored ScholarshipAward
try_award v = do
  amount ← parse_money v.amount_minor v.currency
  status ← parse_status ⦃e = scholarship_award_status_enum⦄ v.status
  ok (record {
    id = v.id;
    application_id = v.application_id;
    decided_by = v.decided_by;
    amount = amount;
    status = status;
    decision_notes = v.decision_notes;
    linked_payout_request_id = v.linked_payout_request_id;
    linked_vault_id = v.linked_vault_id;
    created_at = v.created_at;
    updated_at = v.updated_at;
  })

pub record DonorContributionRow : Type 0 where
  pub id : ℕ
  pub pool_id : ℕ
  pub donor_user_id : ℕ
  pub amount_minor : ℤ
  pub currency : String
  pub status : String
  pub external_reference : Option String
  pub idempotency_key : Option String
  pub created_at : ℕ
  pub updated_at : ℕ

unfoldable pub try_donor_contribution : DonorContributionRow → Stored DonorContribution
try_donor_contribution v = do
  amount ← parse_money v.amount_minor v.currency
  status ← parse_status ⦃e = donor_contribution_status_enum⦄ v.status
  ok (record {
    id = v.id;
    pool_id = v.pool_id;
    donor_user_id = v.donor_user_id;
    amount = amount;
    status = status;
    external_reference = v.external_reference;
    idempotency_key = v.idempotency_key;
    created_at = v.created_at;
    updated_at = v.updated_at;
  })
