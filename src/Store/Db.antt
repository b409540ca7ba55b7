-- ===== src/Store/Db.antt =====
-- The database: one list of rows for each table, newest first. A transaction that returns an error
-- is rolled back when it is dropped, so a call yields an error, or its result and the new state.
use edustell.Common.{String, Option, some, Bool, false, List, Keyed, str_eq}
use edustell.Domain.Records.{ChildProfile, AuditLog, VaultContributor}
use edustell.Store.ScholarshipRows.{
  ScholarshipPoolRow, ScholarshipApplicationRow, ScholarshipAwardRow, DonorContributionRow,
}
use edustell.Store.Rows.{
  SavingsVaultRow, ContributionRow, VaultLedgerEntryRow, MilestoneRow, SchoolRow, PayoutRequestRow,
}

instance abbrev pub vault_key : Keyed SavingsVaultRow
vault_key = record { key = λ r. r.id }

instance abbrev pub contribution_key : Keyed ContributionRow
contribution_key = record { key = λ r. r.id }

instance abbrev pub ledger_key : Keyed VaultLedgerEntryRow
ledger_key = record { key = λ r. r.id }

instance abbrev pub milestone_key : Keyed MilestoneRow
milestone_key = record { key = λ r. r.id }

instance abbrev pub school_key : Keyed SchoolRow
school_key = record { key = λ r. r.id }

instance abbrev pub payout_key : Keyed PayoutRequestRow
payout_key = record { key = λ r. r.id }

instance abbrev pub contributor_key : Keyed VaultContributor
contributor_key = record { key = λ r. r.id }

instance abbrev pub audit_key : Keyed AuditLog
audit_key = record { key = λ r. r.id }

instance abbrev pub child_key : Keyed ChildProfile
child_key = record { key = λ r. r.id }

instance abbrev pub pool_key : Keyed ScholarshipPoolRow
pool_key = record { key = λ r. r.id }

instance abbrev pub application_key : Keyed ScholarshipApplicationRow
application_key = record { key = λ r. r.id }

instance abbrev pub award_key : Keyed ScholarshipAwardRow
award_key = record { key = λ r. r.id }

instance abbrev pub donor_contribution_key : Keyed DonorContributionRow
donor_contribution_key = record { key = λ r. r.id }

pub record Db : Type 0 where
  pub vaults : List SavingsVaultRow
  pub contributors : List VaultContributor
  pub milestones : List MilestoneRow
  pub schools : List SchoolRow
  pub contributions : List ContributionRow
  pub ledger : List VaultLedgerEntryRow
  pub payouts : List PayoutRequestRow
  pub child_profiles : List ChildProfile
  pub pools : List ScholarshipPoolRow
  pub applications : List ScholarshipApplicationRow
  pub awards : List ScholarshipAwardRow
  pub donor_contributions : List DonorContributionRow
  pub audit_logs : List AuditLog

-- Two values of a `UNIQUE` column clash; nulls never do.
abbrev pub same_key : Option String → Option String → Bool
same_key (some a) (some b) = str_eq a b
same_key _ _ = false
