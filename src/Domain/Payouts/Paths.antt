-- ===== src/Domain/Payouts/Paths.antt =====
-- The paths of a payout through its statuses, by `validate_transition`.
use edustell.Common.{◌≡◌, List, [], ◌∷◌, Bool, true, false, ◌||◌, ok, arith, ◌⊎◌, ℕ, ◌<◌}
use edustell.Domain.StringEnum.{eq_enum}
use edustell.Domain.Status.{PayoutStatus, payout_status_enum}
use edustell.Domain.Payouts.{PayoutTransition, check_transition, target_status, validate_transition}

-- A payout starts as pending and moves by the transitions that the domain allows; the list holds
-- the earlier statuses, newest first.
pub data Reached : List PayoutStatus → PayoutStatus → Type 0 where
  start : Reached [] PayoutStatus.pending
  move :
      {h : List PayoutStatus} {a b : PayoutStatus}
      → Reached h a
      → (t : PayoutTransition) → validate_transition a t ≡ ok b
      → Reached (a ∷ h) b

pub visited : PayoutStatus → List PayoutStatus → Bool
visited s [] = false
visited s (a ∷ h) = eq_enum a s || visited s h

-- The statuses after an approval.
abbrev pub is_funded : PayoutStatus → Bool
is_funded PayoutStatus.approved = true
is_funded PayoutStatus.processing = true
is_funded PayoutStatus.completed = true
is_funded PayoutStatus.failed = true
is_funded _ = false

funded_step :
    (a b : PayoutStatus) (t : PayoutTransition)
    → validate_transition a t ≡ ok b
    → is_funded b ≡ true
    → (is_funded a ≡ true) ⊎ ((a ≡ PayoutStatus.under_review) × (b ≡ PayoutStatus.approved))
unfolding validate_transition check_transition target_status
funded_step a b t h funded = ground arith

funded_by_approval :
    (h : List PayoutStatus) (s : PayoutStatus)
    → Reached h s
    → is_funded s ≡ true
    → (s ≡ PayoutStatus.approved) ⊎ (visited PayoutStatus.approved h ≡ true)
unfolding visited
funded_by_approval _ _ start funded = absurd (ground arith)
funded_by_approval _ b (move {h = h} {a = a} r t allowed) funded =
    ground (arith, funded_step a b t allowed funded, funded_by_approval h a r)

-- A payout that is completed or has failed was approved before.
pub completed_was_approved :
    (h : List PayoutStatus) (s : PayoutStatus)
    → Reached h s
    → (s ≡ PayoutStatus.completed) ⊎ (s ≡ PayoutStatus.failed)
    → visited PayoutStatus.approved h ≡ true
completed_was_approved h s r last = ground (arith, funded_by_approval h s r, last)

-- How far a payout is: a transition that changes the status goes on.
abbrev pub progress : PayoutStatus → ℕ
progress PayoutStatus.pending = 0
progress PayoutStatus.under_review = 1
progress PayoutStatus.approved = 2
progress PayoutStatus.processing = 3
progress _ = 4

-- A transition that the domain allows leaves the status or moves it forward, so that no payout ever
-- returns to an earlier status and a final status stays.
pub validate_transition-progress :
    (a b : PayoutStatus) (t : PayoutTransition)
    → validate_transition a t ≡ ok b
    → (b ≡ a) ⊎ (progress a < progress b)
unfolding validate_transition check_transition target_status
validate_transition-progress a b t h = ground arith
