-- ===== src/Tests/Witnesses.antt =====
-- The properties applied to the sample data.
use edustell.Common.{refl, ◌∷◌, ◌≡◌, true, ok, err, pos, arith, ◌⊎◌, ◌↔◌, ◌+◌, ◌≤◌, ltb_ℤ}
use edustell.Domain.Auth.{UserRole}
use edustell.Domain.Status.{payout_status_enum, contribution_status_enum}
use edustell.Domain.Contributions.{ContributionTransition}
use edustell.Domain.Payouts.{PayoutTransition, ensure_available_funds}
use edustell.Domain.Payouts.Funds.{ensure_available_funds_iff}
use edustell.Audit.Redaction.Laws.{is_clean}
use edustell.Application.Contributions.{settle_contribution, record_contribution_intent}
use edustell.Application.Payouts.{create_payout_request}
use edustell.Application.Payouts.Safety.{Repeated, Requested, create_payout_request-Requested}
use edustell.Application.Reviews.{review_transition, approve_payout}
use edustell.Application.Reviews.Safety.{Approved, approve_payout-Approved}
use edustell.Ledger.Balance.{IsReconciled}
use edustell.Ledger.Balance.Handlers.{settle_contribution-IsReconciled}
use edustell.Ledger.Balance.Intents.{record_contribution_intent-IsReconciled}
use edustell.Ledger.Reserves.{IsReserved}
use edustell.Ledger.Reserves.Handlers.{review_transition-IsReserved}
use edustell.Ledger.Reserves.Requests.{create_payout_request-IsReserved}
use edustell.Store.Db.{payout_key, vault_key}
use edustell.Tests.Data.{
  is_ok, env, admin, parent, db, log, confirm_input, intent_input, review_input, request_input,
}
use edustell.Tests.Initial.{got, got_lem, db-IsReconciled, db-IsReserved}
use edustell.Tests.Runs.{confirm_runs, intent_runs, approve_runs, complete_runs, request_runs}
use edustell.Application.Contributions.Safety.{settle_contribution-Settles, Settles}
use edustell.Application.Reviews.Outcomes.{review_transition-Moves, Moves}
use edustell.Store.AuditLogs.{append_audit_log}
use edustell.Store.AuditLogs.Steps.{append_audit_log-clean}
use edustell.Domain.Records.{AuditLog}

settle_contribution-IsReconciled_example :
    IsReconciled 1
      (got
        (settle_contribution env admin confirm_input ContributionTransition.confirm
          "contribution.confirmed" db)
        confirm_runs).1
settle_contribution-IsReconciled_example =
    settle_contribution-IsReconciled 1 env admin confirm_input ContributionTransition.confirm
      "contribution.confirmed" db _ _ db-IsReconciled
      (got_lem
        (settle_contribution env admin confirm_input ContributionTransition.confirm
          "contribution.confirmed" db)
        confirm_runs)

record_contribution_intent-IsReconciled_example :
    IsReconciled 1 (got (record_contribution_intent env parent intent_input db) intent_runs).1
record_contribution_intent-IsReconciled_example =
    record_contribution_intent-IsReconciled 1 env parent intent_input db _ _ db-IsReconciled
      (ground arith) (got_lem (record_contribution_intent env parent intent_input db) intent_runs)

review_transition-IsReserved_example :
    IsReserved 1
      (got
        (review_transition env admin
          (review_input 6)
          PayoutTransition.complete
          "payout.completed"
          db)
        complete_runs).1
review_transition-IsReserved_example =
    review_transition-IsReserved 1 env admin (review_input 6) PayoutTransition.complete
      "payout.completed" db _ _ db-IsReserved
      (got_lem
        (review_transition env admin (review_input 6) PayoutTransition.complete "payout.completed"
          db)
        complete_runs)

create_payout_request-IsReserved_example :
    IsReserved 1 (got (create_payout_request env parent request_input db) request_runs).1
create_payout_request-IsReserved_example =
    create_payout_request-IsReserved 1 env parent request_input db _ _ db-IsReserved (ground arith)
      (got_lem (create_payout_request env parent request_input db) request_runs)

approve_payout-Approved_example :
    Approved env admin
      (review_input 5)
      db
      (got (approve_payout env admin (review_input 5) db) approve_runs).1
approve_payout-Approved_example =
    approve_payout-Approved env admin (review_input 5) db _ _
      (got_lem (approve_payout env admin (review_input 5) db) approve_runs)

create_payout_request-Requested_example :
    (parent.role ≡ UserRole.parent)
    × (ltb_ℤ (pos 0) request_input.amount_minor ≡ true)
    × (Repeated env parent request_input db
          (got (create_payout_request env parent request_input db) request_runs).1
          (got (create_payout_request env parent request_input db) request_runs).0
        ⊎ Requested env parent request_input db
            (got (create_payout_request env parent request_input db) request_runs).1)
create_payout_request-Requested_example =
    create_payout_request-Requested env parent request_input db _ _
      (got_lem (create_payout_request env parent request_input db) request_runs)

ensure_available_funds_iff_example :
    (ensure_available_funds (pos 100) (pos 20) (pos 10) (pos 70) ≡ ok tt) ↔ (70 + 20 + 10 ≤ 100)
ensure_available_funds_iff_example =
    ensure_available_funds_iff 100 20 10 70 (ground arith) (ground arith) (ground arith)

settle_contribution-Settles_example :
    (admin.role ≡ UserRole.platform_admin)
    × Settles 4 ContributionTransition.confirm db
        (got
          (settle_contribution env admin confirm_input ContributionTransition.confirm
            "contribution.confirmed" db)
          confirm_runs).1
settle_contribution-Settles_example =
    settle_contribution-Settles env admin confirm_input ContributionTransition.confirm
      "contribution.confirmed" db _ _
      (got_lem
        (settle_contribution env admin confirm_input ContributionTransition.confirm
          "contribution.confirmed" db)
        confirm_runs)

review_transition-Moves_example :
    (admin.role ≡ UserRole.platform_admin)
    × Moves 6 admin.user_id PayoutTransition.complete db
        (got
          (review_transition env admin
            (review_input 6)
            PayoutTransition.complete
            "payout.completed"
            db)
          complete_runs).1
review_transition-Moves_example =
    review_transition-Moves env admin (review_input 6) PayoutTransition.complete "payout.completed"
      db _ _
      (got_lem
        (review_transition env admin (review_input 6) PayoutTransition.complete "payout.completed"
          db)
        complete_runs)

append_runs : is_ok (append_audit_log env log db) ≡ true
unfolding append_audit_log edustell.Store.Env.execute edustell.Store.Env.require
    edustell.Common.select
append_runs = refl

append_audit_log-clean_example :
    (row : AuditLog) × ((got (append_audit_log env log db) append_runs).audit_logs
      ≡ row ∷ db.audit_logs)
    × (is_clean row.metadata ≡ true)
    × (row.action ≡ log.action)
    × (row.actor_user_id ≡ log.actor_user_id)
    × (row.entity_id ≡ log.entity_id)
append_audit_log-clean_example =
    append_audit_log-clean env log db _ (got_lem (append_audit_log env log db) append_runs)
