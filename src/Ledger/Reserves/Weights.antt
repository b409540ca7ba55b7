-- ===== src/Ledger/Reserves/Weights.antt =====
-- What a payout adds to its vault's sums by its status, and the new columns by the old sums.
use edustell.Common.{
  Bool, ◌⊎◌, ◌-◌, ℕ, String, ◌<◌, ◌≤◌, ◌+◌, ◌≡◌, ◌&&◌, ◌||◌, refl, sym, ◌∙◌, ap, ℤ, pos, negsuc,
  pos_part, leb_ℤ, i64_half, add_i64, sub_i64, add_i64_nonneg, sub_i64_le, arith, ◌==◌,
  if◌then◌else◌, str_eq, true, false, ok,
}
use edustell.Domain.StringEnum.{as_str, eq_enum}
use edustell.Domain.Status.{PayoutStatus, payout_status_enum}
use edustell.Domain.Records.{PayoutRequest}
use edustell.Domain.Payouts.{check_transition}
use edustell.Store.Rows.{PayoutRequestRow}
use edustell.Store.Rows.Fields.{IsPayoutOf}
use edustell.Store.Db.{vault_key, payout_key}
use edustell.Ledger.Reserves.{locked_amount, disbursed_amount}

-- What a row weighs, by the text of its status.
locked_text :
    (v : ℕ) (r : PayoutRequestRow) (text : String)
    → r.status ≡ text
    → locked_amount v r ≡ (
        if r.vault_id == v && (str_eq text "approved" || str_eq text "processing")
        then pos_part r.amount_minor
        else 0)
locked_text v r text e = rw (sym e) refl

disbursed_text :
    (v : ℕ) (r : PayoutRequestRow) (text : String)
    → r.status ≡ text
    → disbursed_amount v r
      ≡ (if r.vault_id == v && str_eq text "completed" then pos_part r.amount_minor else 0)
disbursed_text v r text e = rw (sym e) refl

-- The statuses whose payouts are locked, and those whose payouts are paid.
abbrev pub locks : PayoutStatus → Bool
locks PayoutStatus.approved = true
locks PayoutStatus.processing = true
locks _ = false

abbrev pub pays : PayoutStatus → Bool
pays PayoutStatus.completed = true
pays _ = false

pub locked_status :
    (v : ℕ) (r : PayoutRequestRow) (s : PayoutStatus)
    → r.status ≡ as_str s
    → locked_amount v r ≡ (if r.vault_id == v && locks s then pos_part r.amount_minor else 0)
locked_status v r PayoutStatus.pending e = locked_text v r "pending" e
locked_status v r PayoutStatus.under_review e = locked_text v r "under_review" e
locked_status v r PayoutStatus.approved e = locked_text v r "approved" e
locked_status v r PayoutStatus.rejected e = locked_text v r "rejected" e
locked_status v r PayoutStatus.processing e = locked_text v r "processing" e
locked_status v r PayoutStatus.completed e = locked_text v r "completed" e
locked_status v r PayoutStatus.failed e = locked_text v r "failed" e

pub disbursed_status :
    (v : ℕ) (r : PayoutRequestRow) (s : PayoutStatus)
    → r.status ≡ as_str s
    → disbursed_amount v r ≡ (if r.vault_id == v && pays s then pos_part r.amount_minor else 0)
disbursed_status v r PayoutStatus.pending e = disbursed_text v r "pending" e
disbursed_status v r PayoutStatus.under_review e = disbursed_text v r "under_review" e
disbursed_status v r PayoutStatus.approved e = disbursed_text v r "approved" e
disbursed_status v r PayoutStatus.rejected e = disbursed_text v r "rejected" e
disbursed_status v r PayoutStatus.processing e = disbursed_text v r "processing" e
disbursed_status v r PayoutStatus.completed e = disbursed_text v r "completed" e
disbursed_status v r PayoutStatus.failed e = disbursed_text v r "failed" e

pub row_text :
    (r : PayoutRequestRow) (p : PayoutRequest) (s : PayoutStatus)
    → IsPayoutOf r p
    → p.status ≡ s
    → r.status ≡ as_str s
row_text r p s cur was = sym cur.status ∙ ap (λ x. as_str x) was

-- The new columns of an approval, a completion and a failure, from the old sums.
pub approve_columns :
    (l d : ℕ) (bl bd bc a : ℤ)
    → bl ≡ pos l
    → bd ≡ pos d
    → l + d ≤ pos_part bc
    → leb_ℤ (pos 0) bc ≡ true
    → pos_part bc < i64_half
    → leb_ℤ (pos 0) a ≡ true
    → pos_part a < i64_half
    → leb_ℤ a (sub_i64 (sub_i64 bc bl) bd) ≡ true
    → leb_ℤ (pos 0) (add_i64 bl a) ≡ true
    → (add_i64 bl a ≡ pos (l + pos_part a)) × (l + pos_part a + d ≤ pos_part bc)
approve_columns l d bl bd (pos n) (pos m) el ed fund nb hc ha hm avail nonneg =
    ground (arith, sub_i64_le n l, sub_i64_le (n - l) d, add_i64_nonneg l m)
approve_columns l d bl bd (negsuc n) a el ed fund nb hc ha hm avail nonneg = absurd (ground arith)
approve_columns l d bl bd (pos n) (negsuc m) el ed fund nb hc ha hm avail nonneg =
    absurd (ground arith)

pub release_columns :
    (l : ℕ) (bl a : ℤ)
    → bl ≡ pos l
    → l < i64_half
    → leb_ℤ (pos 0) a ≡ true
    → pos_part a ≤ l
    → sub_i64 bl a ≡ pos (l - pos_part a)
release_columns l bl (pos m) el hl ha h = ground (arith, sub_i64_le l m)
release_columns l bl (negsuc m) el hl ha h = absurd (ground arith)

pub pay_columns :
    (d : ℕ) (bd a : ℤ)
    → bd ≡ pos d
    → d < i64_half
    → leb_ℤ (pos 0) a ≡ true
    → pos_part a < i64_half
    → leb_ℤ (pos 0) (add_i64 bd a) ≡ true
    → add_i64 bd a ≡ pos (d + pos_part a)
pay_columns d bd (pos m) ed hd ha hm h = ground (arith, add_i64_nonneg d m)
pay_columns d bd (negsuc m) ed hd ha hm h = absurd (ground arith)

-- A transition that moves no funds keeps what the payout weighs.
pub idle_weights :
    (from target : PayoutStatus)
    → check_transition from target ≡ ok target
    → eq_enum from target ≡ false
    → (target ≡ PayoutStatus.under_review)
      ⊎ (target ≡ PayoutStatus.rejected)
      ⊎ (target ≡ PayoutStatus.processing)
    → (locks target ≡ locks from) × (pays target ≡ pays from)
unfolding check_transition
idle_weights from target moves other which = ground arith
