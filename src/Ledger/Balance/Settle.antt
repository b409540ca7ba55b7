-- ===== src/Ledger/Balance/Settle.antt =====
-- A settlement along the transitions of the domain keeps a vault reconciled.
use edustell.Common.{
  ap, str_eq_iff, ℕ, String, Option, ◌<◌, ◌+◌, ◌≡◌, some, refl, sym, ◌∙◌, ℤ, pos, negsuc, pos_part,
  leb_ℤ, ltb_ℤ, i64_half, add_i64, sub_i64, add_i64_nonneg, sub_i64_le, add_i64_bounded,
  sub_i64_bounded, arith, select, str_eq, true, false,
}
use edustell.Domain.StringEnum.{as_str}
use edustell.Domain.Status.{ContributionStatus, contribution_status_enum}
use edustell.Domain.Records.{Contribution}
use edustell.Store.Env.{Env}
use edustell.Store.Rows.{SavingsVaultRow, ContributionRow}
use edustell.Store.Rows.Fields.{IsContributionOf}
use edustell.Store.Db.{Db, vault_key, contribution_key}
use edustell.Store.Vaults.{set_totals}
use edustell.Store.Contributions.{set_status}
use edustell.Store.Contributions.Settlement.{IsSettled, VaultsPosted}
use edustell.Ledger.Balance.{confirmed_amount, confirmed_total, IsReconciled}
use edustell.Ledger.Balance.Moves.{confirmed_total-update, IsReconciled-still, IsReconciled-posted}

-- The new balance of a confirmation, and of a reversal.
add_amount :
    (s : ℕ) (b a : ℤ)
    → b ≡ pos s
    → s < i64_half
    → leb_ℤ (pos 0) a ≡ true
    → pos_part a < i64_half
    → leb_ℤ (pos 0) (add_i64 b a) ≡ true
    → add_i64 b a ≡ pos (s + pos_part a)
add_amount s b (pos n) e hs ha hn h = ground (arith, add_i64_nonneg s n)
add_amount s b (negsuc n) e hs ha hn h = absurd (ground arith)

sub_amount :
    (s t : ℕ) (b a : ℤ)
    → b ≡ pos s
    → s < i64_half
    → leb_ℤ (pos 0) a ≡ true
    → ltb_ℤ b a ≡ false
    → t + pos_part a ≡ s
    → sub_i64 b a ≡ pos t
sub_amount s t b (pos n) e hs ha h sum = ground (arith, sub_i64_le s n)
sub_amount s t b (negsuc n) e hs ha h sum = absurd (ground arith)

-- What a row weighs, by the status that it holds.
weight_confirmed :
    (v : ℕ) (r : ContributionRow)
    → r.vault_id ≡ v
    → r.status ≡ "confirmed"
    → confirmed_amount v r ≡ pos_part r.amount_minor
weight_confirmed v r at h = ground (arith, str_eq_iff r.status "confirmed")

weight_other :
    (v : ℕ) (r : ContributionRow) → str_eq r.status "confirmed" ≡ false → confirmed_amount v r ≡ 0
weight_other v r h = ground arith

-- A pending contribution has another status in its row.
pending_text :
    (r : ContributionRow) (c : Contribution)
    → IsContributionOf r c
    → c.status ≡ ContributionStatus.pending
    → str_eq r.status "confirmed" ≡ false
pending_text r c cur was =
    let text : r.status ≡ "pending" = sym cur.status ∙ ap (λ x. as_str x) was in
    ap (λ x. str_eq x "confirmed") text

module _ (v : ℕ) (env : Env) (c saved : Contribution) (ref : Option String) (db db' : Db)
    (r : ContributionRow) (vr : SavingsVaultRow) (cur : IsContributionOf r c)
    (R : IsReconciled v db) where
  confirm-balance :
      c.status ≡ ContributionStatus.pending
      → IsSettled env c saved ContributionStatus.confirmed ref db db' r vr
      → leb_ℤ (pos 0) (add_i64 vr.total_contributed_minor r.amount_minor) ≡ true
      → v ≡ c.vault_id
      → add_i64 vr.total_contributed_minor r.amount_minor ≡ pos (confirmed_total v db')
  confirm-balance was s nonneg at =
      let found : select v db.vaults ≡ some vr = rw at s.found_vault in
      let f = set_status env "confirmed" ref in
      let same : r.vault_id ≡ v = sym (at ∙ cur.vault) in
      ground (
        arith,
        add_amount (confirmed_total v db) vr.total_contributed_minor r.amount_minor
            (R.balanced vr found) (ground (arith, R.balanced vr found, R.bounded vr found))
            cur.nonneg (R.amounts c.id r s.found_row) nonneg,
        confirmed_total-update v db db' c.id f r s.found_row s.contributions,
        weight_other v r (pending_text r c cur was),
        weight_confirmed v (f r) same refl,
      )

  pub confirm-IsReconciled :
      c.status ≡ ContributionStatus.pending
      → IsSettled env c saved ContributionStatus.confirmed ref db db' r vr
      → VaultsPosted env ContributionStatus.confirmed vr r.amount_minor c.vault_id db db'
      → IsReconciled v db'
  confirm-IsReconciled was s (nonneg, vaults) =
      let f = set_status env "confirmed" ref in
      IsReconciled-posted v db db' c.id f r s.found_row s.contributions (λ x. refl) R refl refl
        c.vault_id (set_totals env (add_i64 vr.total_contributed_minor r.amount_minor)) vr
        (λ x. refl) s.found_vault cur.vault vaults (λ at. confirm-balance was s nonneg at)
        (add_i64_bounded vr.total_contributed_minor r.amount_minor)

  reverse-balance :
      c.status ≡ ContributionStatus.confirmed
      → IsSettled env c saved ContributionStatus.reversed ref db db' r vr
      → ltb_ℤ vr.total_contributed_minor r.amount_minor ≡ false
      → v ≡ c.vault_id
      → sub_i64 vr.total_contributed_minor r.amount_minor ≡ pos (confirmed_total v db')
  reverse-balance was s covered at =
      let found : select v db.vaults ≡ some vr = rw at s.found_vault in
      let f = set_status env "reversed" ref in
      let same : r.vault_id ≡ v = sym (at ∙ cur.vault) in
      sub_amount (confirmed_total v db) (confirmed_total v db') vr.total_contributed_minor
        r.amount_minor (R.balanced vr found)
        (ground (arith, R.balanced vr found, R.bounded vr found)) cur.nonneg covered
        (ground (
          arith,
          confirmed_total-update v db db' c.id f r s.found_row s.contributions,
          weight_other v (f r) refl,
          weight_confirmed v r same (ground (arith, was, cur.status)),
        ))

  pub reverse-IsReconciled :
      c.status ≡ ContributionStatus.confirmed
      → IsSettled env c saved ContributionStatus.reversed ref db db' r vr
      → VaultsPosted env ContributionStatus.reversed vr r.amount_minor c.vault_id db db'
      → IsReconciled v db'
  reverse-IsReconciled was s (covered, nonneg, vaults) =
      let f = set_status env "reversed" ref in
      IsReconciled-posted v db db' c.id f r s.found_row s.contributions (λ x. refl) R refl refl
        c.vault_id (set_totals env (sub_i64 vr.total_contributed_minor r.amount_minor)) vr
        (λ x. refl) s.found_vault cur.vault vaults (λ at. reverse-balance was s covered at)
        (sub_i64_bounded vr.total_contributed_minor r.amount_minor)

  pub fail-IsReconciled :
      c.status ≡ ContributionStatus.pending
      → IsSettled env c saved ContributionStatus.failed ref db db' r vr
      → db'.vaults ≡ db.vaults
      → IsReconciled v db'
  fail-IsReconciled was s vaults =
      let f = set_status env "failed" ref in
      IsReconciled-still v db db' c.id f r s.found_row s.contributions (λ x. refl) R refl refl
        vaults (weight_other v (f r) refl ∙ sym (weight_other v r (pending_text r c cur was)))
