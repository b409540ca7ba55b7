-- ===== src/Ledger/Machine/Sums.antt =====
-- The moves of the books as equations of their sums, and what a change of one row does to them.
use edustell.Common.{
  ℕ, String, Bool, true, false, ◌≡◌, ◌⊎◌, inl, inr, ok, ◌+◌, ◌≤◌, ◌&&◌, arith, pos_part, ◌==◌,
  if◌then◌else◌, str_eq, sym, subst, refl,
}
use edustell.Domain.StringEnum.{as_str}
use edustell.Domain.Status.{
  PayoutStatus, payout_status_enum, ContributionStatus, contribution_status_enum,
}
use edustell.Domain.Contributions.{ContributionTransition}
use edustell.Domain.Contributions.{check_transition as may_settle}
use edustell.Domain.Payouts.{PayoutTransition}
use edustell.Domain.Payouts.{check_transition as may_review}
use edustell.Store.Rows.{ContributionRow}
use edustell.Store.Db.{vault_key, contribution_key, payout_key}
use edustell.Ledger.Balance.{confirmed_amount}
use edustell.Ledger.Reserves.Weights.{locks, pays}
use edustell.Ledger.Machine.{Funds, Move}

-- The moves, as equations of the sums.
unfoldable pub Sums : Funds → Funds → ℕ → Type 0
Sums a b n =
    ((b.contributed ≡ a.contributed) × (b.locked ≡ a.locked) × (b.disbursed ≡ a.disbursed))
    ⊎ ((b.contributed ≡ a.contributed + n) × (b.locked ≡ a.locked) × (b.disbursed ≡ a.disbursed))
    ⊎ ((a.contributed ≡ b.contributed + n) × (b.locked ≡ a.locked) × (b.disbursed ≡ a.disbursed))
    ⊎ ((b.contributed ≡ a.contributed)
        × (b.locked ≡ a.locked + n)
        × (b.disbursed ≡ a.disbursed)
        × (b.locked + b.disbursed ≤ b.contributed))
    ⊎ ((b.contributed ≡ a.contributed)
        × (a.locked ≡ b.locked + n)
        × (b.disbursed ≡ a.disbursed + n))
    ⊎ ((b.contributed ≡ a.contributed) × (a.locked ≡ b.locked + n) × (b.disbursed ≡ a.disbursed))

Funds-eq :
    (a b : Funds)
    → a.contributed ≡ b.contributed
    → a.locked ≡ b.locked
    → a.disbursed ≡ b.disbursed
    → a ≡ b
Funds-eq a b c l d = λ i. record { contributed = c i; locked = l i; disbursed = d i }

pub Sums-Move : (a b : Funds) (n : ℕ) → Sums a b n → Move a b
unfolding Sums
Sums-Move a b n (inl (c, l, d)) =
    subst (λ x. Move a x) (Funds-eq a b (sym c) (sym l) (sym d)) (Move.idle a)
Sums-Move a b n (inr (inl (c, l, d))) =
    subst (λ x. Move a x) (Funds-eq _ b (sym c) (sym l) (sym d)) (Move.deposit n a)
Sums-Move a b n (inr (inr (inl (c, l, d)))) =
    subst (λ x. Move x b) (Funds-eq _ a (sym c) l d) (Move.withdraw n b)
Sums-Move a b n (inr (inr (inr (inl (c, l, d, covered))))) =
    subst (λ x. Move a x) (Funds-eq _ b (sym c) (sym l) (sym d)) (Move.lock n a (ground arith))
Sums-Move a b n (inr (inr (inr (inr (inl (c, l, d)))))) =
    let rest : Funds = record {
      contributed = a.contributed;
      locked = b.locked;
      disbursed = a.disbursed;
    } in
    subst (λ x. Move x b) (Funds-eq (record rest { locked = rest.locked + n }) a refl (sym l) refl)
      (subst (λ x. Move (record rest { locked = rest.locked + n }) x)
        (Funds-eq (record rest { disbursed = rest.disbursed + n }) b (sym c) refl (sym d))
        (Move.pay n rest))
Sums-Move a b n (inr (inr (inr (inr (inr (c, l, d)))))) =
    subst (λ x. Move x b) (Funds-eq _ a c (sym l) d) (Move.release n b)

-- The sums after a change of one payout.
pub review-Sums :
    (from target : PayoutStatus) (here : Bool) (n : ℕ) (a b : Funds)
    → may_review from target ≡ ok target
    → b.contributed ≡ a.contributed
    → b.locked + (if here && locks from then n else 0)
      ≡ a.locked + (if here && locks target then n else 0)
    → b.disbursed + (if here && pays from then n else 0)
      ≡ a.disbursed + (if here && pays target then n else 0)
    → b.locked + b.disbursed ≤ b.contributed
    → Sums a b n
unfolding Sums edustell.Domain.Payouts.check_transition
review-Sums from target here n a b may c l d covered = ground arith

-- The only status whose contributions count.
abbrev pub counts : ContributionStatus → Bool
counts ContributionStatus.confirmed = true
counts _ = false

confirmed_text :
    (v : ℕ) (r : ContributionRow) (text : String)
    → r.status ≡ text
    → confirmed_amount v r
      ≡ (if r.vault_id == v && str_eq text "confirmed" then pos_part r.amount_minor else 0)
confirmed_text v r text e = rw (sym e) refl

pub confirmed_status :
    (v : ℕ) (r : ContributionRow) (s : ContributionStatus)
    → r.status ≡ as_str s
    → confirmed_amount v r ≡ (if r.vault_id == v && counts s then pos_part r.amount_minor else 0)
confirmed_status v r ContributionStatus.pending e = confirmed_text v r "pending" e
confirmed_status v r ContributionStatus.confirmed e = confirmed_text v r "confirmed" e
confirmed_status v r ContributionStatus.failed e = confirmed_text v r "failed" e
confirmed_status v r ContributionStatus.reversed e = confirmed_text v r "reversed" e

-- The sums after a change of one contribution.
pub settle-Sums :
    (from target : ContributionStatus) (here : Bool) (n : ℕ) (a b : Funds)
    → may_settle from target ≡ ok target
    → b.contributed + (if here && counts from then n else 0)
      ≡ a.contributed + (if here && counts target then n else 0)
    → b.locked ≡ a.locked
    → b.disbursed ≡ a.disbursed
    → Sums a b n
unfolding Sums edustell.Domain.Contributions.check_transition
settle-Sums from target here n a b may c l d = ground arith
