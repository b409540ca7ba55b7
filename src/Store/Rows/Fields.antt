-- ===== src/Store/Rows/Fields.antt =====
-- The fields of an entity are those of the row that it was read from.
use edustell.Common.{◌≡◌, pos, leb_ℤ, true, ok, arith}
use edustell.Domain.StringEnum.{as_str, from_str-eq-ok}
use edustell.Domain.Money.{money_new}
use edustell.Domain.Status.{contribution_status_enum, payout_status_enum}
use edustell.Domain.Records.{Contribution, PayoutRequest}
use edustell.Store.Rows.{
  ContributionRow, PayoutRequestRow, try_contribution, try_payout, parse_money, parse_status,
}

pub record IsContributionOf (r : ContributionRow) (c : Contribution) : Type 0 where
  pub id : c.id ≡ r.id
  pub vault : c.vault_id ≡ r.vault_id
  pub amount : c.amount.amount_minor ≡ r.amount_minor
  pub nonneg : leb_ℤ (pos 0) r.amount_minor ≡ true
  pub status : as_str c.status ≡ r.status

pub try_contribution-IsContributionOf :
    (r : ContributionRow) (c : Contribution) → try_contribution r ≡ ok c → IsContributionOf r c
unfolding try_contribution parse_money parse_status money_new
try_contribution-IsContributionOf r c h =
    ground (arith, from_str-eq-ok ⦃e = contribution_status_enum⦄ r.status c.status)

pub record IsPayoutOf (r : PayoutRequestRow) (p : PayoutRequest) : Type 0 where
  pub id : p.id ≡ r.id
  pub vault : p.vault_id ≡ r.vault_id
  pub amount : p.amount.amount_minor ≡ r.amount_minor
  pub nonneg : leb_ℤ (pos 0) r.amount_minor ≡ true
  pub status : as_str p.status ≡ r.status

pub try_payout-IsPayoutOf :
    (r : PayoutRequestRow) (p : PayoutRequest) → try_payout r ≡ ok p → IsPayoutOf r p
unfolding try_payout parse_money parse_status money_new
try_payout-IsPayoutOf r p h =
    ground (arith, from_str-eq-ok ⦃e = payout_status_enum⦄ r.status p.status)
