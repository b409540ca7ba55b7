-- ===== src/Tests/Rules.antt =====
-- The properties of the rules and the workflows applied to the sample data.
use edustell.Common.{
  ◌≡◌, refl, true, ok, some, none, pos, arith, inl, inr, ◌⊎◌, [], ◌∷◌, ◌≤◌, ◌-◌, ◌<◌, ℕ, ℤ, add_i64,
  sub_i64, select, i64_half, Option,
}
use edustell.Domain.Status.{PayoutStatus, ContributionStatus}
use edustell.Domain.Records.{Contribution, PayoutRequest, SavingsVault}
use edustell.Domain.Contributions.{ContributionTransition}
use edustell.Domain.Contributions as ContributionRules
use edustell.Domain.Contributions.Paths as ContributionPaths
use edustell.Domain.Contributions.Paths.{reversed_was_confirmed}
use edustell.Domain.Payouts.{PayoutTransition, validate_transition}
use edustell.Domain.Payouts.Paths.{
  Reached, visited, completed_was_approved, progress, validate_transition-progress,
}
use edustell.Application.Awards.{approve_application, read_reviewable}
use edustell.Application.Awards.Balance.{AddedAward, approve_application-balance}
use edustell.Ledger.Reserves.Completion.{move_funds-completed}
use edustell.Store.Vaults.{update_vault_locked_and_disbursed}
use edustell.Store.Rows.{try_payout, try_vault, try_contribution}
use edustell.Store.Contributions.{post_to_ledger}
use edustell.Store.Contributions.Entries.{Posted, post_to_ledger-Posted}
use edustell.Store.Payouts.{move_funds}
use edustell.Store.Db.{pool_key, Db, payout_key, vault_key}
use edustell.Tests.Data.{env, admin, db, decide_input, is_ok, payout, contribution, vault_row}
use edustell.Tests.Initial.{got, got_lem, db-IsReserved}
use edustell.Tests.Runs.{decide_runs}
use edustell.Store.ScholarshipRows.{ScholarshipPoolRow}

-- The rows of the sample data, read.
pub vault_reads : is_ok (try_vault vault_row) ≡ true
unfolding try_vault edustell.Store.Rows.parse_status edustell.Domain.StringEnum.from_str
vault_reads = refl

pub payout_reads : is_ok (try_payout (payout 6 20 "processing")) ≡ true
unfolding try_payout edustell.Store.Rows.parse_status edustell.Domain.StringEnum.from_str
    edustell.Store.Rows.parse_money edustell.Domain.Money.money_new
    edustell.Domain.Money.currency_from_str
payout_reads = refl

pub pending_reads : is_ok (try_contribution (contribution 4 50 "pending")) ≡ true
unfolding try_contribution edustell.Store.Rows.parse_status edustell.Domain.StringEnum.from_str
    edustell.Store.Rows.parse_money edustell.Domain.Money.money_new
    edustell.Domain.Money.currency_from_str
pending_reads = refl

completed_was_approved_example :
    visited PayoutStatus.approved (
      PayoutStatus.processing ∷ PayoutStatus.approved ∷ PayoutStatus.under_review
      ∷ PayoutStatus.pending ∷ [])
    ≡ true
unfolding validate_transition
completed_was_approved_example =
    completed_was_approved
      (PayoutStatus.processing ∷ PayoutStatus.approved ∷ PayoutStatus.under_review
        ∷ PayoutStatus.pending ∷ [])
      PayoutStatus.completed
      (Reached.move
        (Reached.move
          (Reached.move (Reached.move Reached.start PayoutTransition.move_to_review refl)
            PayoutTransition.approve refl)
          PayoutTransition.mark_processing refl)
        PayoutTransition.complete refl)
      (inl refl)

validate_transition-progress_example :
    (PayoutStatus.approved ≡ PayoutStatus.under_review)
    ⊎ (progress PayoutStatus.under_review < progress PayoutStatus.approved)
unfolding validate_transition
validate_transition-progress_example =
    validate_transition-progress PayoutStatus.under_review PayoutStatus.approved
      PayoutTransition.approve refl

reversed_was_confirmed_example :
    ContributionPaths.visited ContributionStatus.confirmed
      (ContributionStatus.confirmed ∷ ContributionStatus.pending ∷ [])
    ≡ true
unfolding ContributionRules.validate_transition
reversed_was_confirmed_example =
    reversed_was_confirmed (ContributionStatus.confirmed ∷ ContributionStatus.pending ∷ [])
      ContributionStatus.reversed
      (ContributionPaths.Reached.move
        (ContributionPaths.Reached.move ContributionPaths.Reached.start
          ContributionTransition.confirm refl)
        ContributionTransition.reverse refl)
      refl

-- The sample data with the contribution confirmed and the payout approved.
abbrev confirmed_db : Db
confirmed_db = record db { contributions = contribution 4 50 "confirmed" ∷ [] }

abbrev approved_db : Db
approved_db = record db { payouts = payout 5 30 "approved" ∷ [] }

move_funds-completed_example :
    move_funds env PayoutStatus.completed
      (got (try_vault vault_row) vault_reads)
      (got (try_payout (payout 6 20 "processing")) payout_reads)
      db
    ≡ update_vault_locked_and_disbursed env
        (got (try_vault vault_row) vault_reads)
        (sub_i64
          (got (try_vault vault_row) vault_reads).total_locked_minor
          (got (try_payout (payout 6 20 "processing")) payout_reads).amount.amount_minor)
        (add_i64
          (got (try_vault vault_row) vault_reads).total_disbursed_minor
          (got (try_payout (payout 6 20 "processing")) payout_reads).amount.amount_minor)
        db
unfolding edustell.Common.select try_payout try_vault edustell.Store.Rows.parse_status
    edustell.Domain.StringEnum.from_str edustell.Store.Rows.parse_money
    edustell.Domain.Money.money_new edustell.Domain.Money.currency_from_str
move_funds-completed_example =
    move_funds-completed 1 env db 6 (payout 6 20 "processing")
      (got (try_payout (payout 6 20 "processing")) payout_reads) vault_row
      (got (try_vault vault_row) vault_reads) db-IsReserved refl refl refl refl refl refl

pub posting_runs :
    is_ok (
      post_to_ledger env ContributionStatus.confirmed
        (got (try_vault vault_row) vault_reads)
        (got (try_contribution (contribution 4 50 "pending")) pending_reads)
        1
        db)
    ≡ true
unfolding post_to_ledger edustell.Store.Contributions.post_entry
    edustell.Store.Contributions.insert_ledger_entry edustell.Store.Contributions.ledger_row
    edustell.Store.Rows.try_ledger_entry edustell.Store.Vaults.update_vault_totals
    edustell.Store.Vaults.update_vault edustell.Store.Env.require edustell.Store.Env.execute
    edustell.Common.update edustell.Common.add_i64 edustell.Domain.Money.currency_as_str
    try_contribution edustell.Common.select try_vault edustell.Store.Rows.parse_status
    edustell.Domain.StringEnum.from_str edustell.Store.Rows.parse_money
    edustell.Domain.Money.money_new edustell.Domain.Money.currency_from_str
posting_runs = refl

abbrev posted : SavingsVault × Option edustell.Domain.Records.VaultLedgerEntry × Db
posted =
    got
      (post_to_ledger env ContributionStatus.confirmed (got (try_vault vault_row) vault_reads)
        (got (try_contribution (contribution 4 50 "pending")) pending_reads) 1 db)
      posting_runs

post_to_ledger-Posted_example :
    Posted ContributionStatus.confirmed
      (got (try_vault vault_row) vault_reads)
      (got (try_contribution (contribution 4 50 "pending")) pending_reads)
      posted.1
      db
      posted.2
post_to_ledger-Posted_example =
    post_to_ledger-Posted env ContributionStatus.confirmed (got (try_vault vault_row) vault_reads)
      posted.0 (got (try_contribution (contribution 4 50 "pending")) pending_reads) 1 db posted.2
      posted.1
      (got_lem
        (post_to_ledger env ContributionStatus.confirmed (got (try_vault vault_row) vault_reads)
          (got (try_contribution (contribution 4 50 "pending")) pending_reads) 1 db)
        posting_runs)

pub reviewable_reads : is_ok (read_reviewable env 31 db) ≡ true
unfolding read_reviewable edustell.Store.Scholarships.find_pool
    edustell.Store.Scholarships.find_application edustell.Store.ScholarshipRows.try_pool
    edustell.Store.ScholarshipRows.try_application
    edustell.Domain.Scholarships.validate_application_reviewable edustell.Store.Env.execute
    edustell.Common.select edustell.Store.Rows.parse_status edustell.Domain.StringEnum.from_str
    edustell.Store.Rows.parse_money edustell.Domain.Money.money_new
    edustell.Domain.Money.currency_from_str
reviewable_reads = refl

approve_application-balance_example :
    (60 ≤ 70)
    × ((row : ScholarshipPoolRow) × (select
            (got (read_reviewable env 31 db) reviewable_reads).0.pool_id
            (got (approve_application env admin decide_input db) decide_runs).1.pools
          ≡ some row)
        × (row.available_funds_minor ≡ pos (70 - 60)))
    × AddedAward decide_input
        ((got (read_reviewable env 31 db) reviewable_reads).0)
        db
        ((got (approve_application env admin decide_input db) decide_runs).1)
unfolding read_reviewable edustell.Store.Scholarships.find_pool
    edustell.Store.Scholarships.find_application edustell.Store.ScholarshipRows.try_pool
    edustell.Store.ScholarshipRows.try_application
    edustell.Domain.Scholarships.validate_application_reviewable edustell.Store.Env.execute
    edustell.Common.select edustell.Store.Rows.parse_status edustell.Domain.StringEnum.from_str
    edustell.Store.Rows.parse_money edustell.Domain.Money.money_new
    edustell.Domain.Money.currency_from_str
approve_application-balance_example =
    approve_application-balance env admin decide_input db _ _
      (got (read_reviewable env 31 db) reviewable_reads).0
      (got (read_reviewable env 31 db) reviewable_reads).1 70
      (got_lem (read_reviewable env 31 db) reviewable_reads) refl (ground arith)
      (got_lem (approve_application env admin decide_input db) decide_runs)
