-- ===== src/Domain/Contributions/Paths.antt =====
-- The paths of a contribution through its statuses, by `validate_transition`.
use edustell.Common.{◌≡◌, List, [], ◌∷◌, Bool, true, false, ◌||◌, ok, arith, ◌⊎◌}
use edustell.Domain.StringEnum.{eq_enum}
use edustell.Domain.Status.{ContributionStatus, contribution_status_enum}
use edustell.Domain.Contributions.{
  ContributionTransition, check_transition, target_status, validate_transition,
}

-- A contribution starts as pending; the list holds the earlier statuses, newest first.
pub data Reached : List ContributionStatus → ContributionStatus → Type 0 where
  start : Reached [] ContributionStatus.pending
  move :
      {h : List ContributionStatus} {a b : ContributionStatus}
      → Reached h a
      → (t : ContributionTransition) → validate_transition a t ≡ ok b
      → Reached (a ∷ h) b

pub visited : ContributionStatus → List ContributionStatus → Bool
visited s [] = false
visited s (a ∷ h) = eq_enum a s || visited s h

reversed_step :
    (a b : ContributionStatus) (t : ContributionTransition)
    → validate_transition a t ≡ ok b
    → b ≡ ContributionStatus.reversed
    → (a ≡ ContributionStatus.reversed) ⊎ (a ≡ ContributionStatus.confirmed)
unfolding validate_transition check_transition target_status
reversed_step a b t h e = ground arith

-- A contribution that is reversed was confirmed before.
pub reversed_was_confirmed :
    (h : List ContributionStatus) (s : ContributionStatus)
    → Reached h s
    → s ≡ ContributionStatus.reversed
    → visited ContributionStatus.confirmed h ≡ true
unfolding visited
reversed_was_confirmed _ _ start e = absurd (ground arith)
reversed_was_confirmed _ b (move {h = h} {a = a} r t allowed) e =
    ground (arith, reversed_step a b t allowed e, reversed_was_confirmed h a r)
