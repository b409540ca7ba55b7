-- ===== src/Application/Savings/Outcomes.antt =====
-- What the handlers of plans, milestones and contributors leave behind, also when they fail.
use edustell.Common.{
  refl, true, leb_ℤ, succeeds, select, none, ℕ, String, ◌≡◌, ◌⊎◌, inl, inr, some, false, pos, ok,
  err, arith, ◌∷◌, Result-cases,
}
use edustell.Domain.Auth.{UserRole, user_role_enum, AuthenticatedUser}
use edustell.Domain.Money.{Money, money_new}
use edustell.Store.Env.{Env, require}
use edustell.Store.Scholarships.{find_child}
use edustell.Store.Db.{child_key}
use edustell.Store.Savings.{
  SavingsPlanRow, SavingsDb, create_plan_row, create_milestone_row, plan_row,
}
use edustell.Application.Savings.{
  currency_as_str, trim, is_empty, CreatePlanInput, CreateMilestoneInput, new_plan, create_plan,
  create_milestone, save_plan, save_milestone, record_audit,
}

-- A new plan is a draft of the parent who asked for it, for a child of that parent, with the name and the
-- amount that were asked for.
abbrev pub AddedPlan : AuthenticatedUser → CreatePlanInput → SavingsDb → SavingsDb → Type 0
AddedPlan actor input s t =
    (actor.role ≡ UserRole.parent)
    × (is_empty (trim input.name) ≡ false)
    × (leb_ℤ (pos 0) input.target_amount_minor ≡ true)
    × (elim (select input.child_profile_id s.db.child_profiles) [
      | none ↦ ⊥
      | some child ↦ child.owner_user_id ≡ actor.user_id
    ])
    × ((row : SavingsPlanRow) × (t.plans ≡ row ∷ s.plans)
        × (row.status ≡ "draft")
        × (row.owner_user_id ≡ actor.user_id)
        × (row.child_profile_id ≡ input.child_profile_id)
        × (row.name ≡ trim input.name)
        × (row.target_amount_minor ≡ input.target_amount_minor)
        × (row.target_currency ≡ currency_as_str input.currency))

-- What the handler adds, as it makes it.
abbrev Added : Env → AuthenticatedUser → CreatePlanInput → Money → SavingsDb → SavingsDb → Type 0
Added env actor input amount s t =
    (actor.role ≡ UserRole.parent)
    × (is_empty (trim input.name) ≡ false)
    × (elim (select input.child_profile_id s.db.child_profiles) [
      | none ↦ ⊥
      | some child ↦ child.owner_user_id ≡ actor.user_id
    ])
    × (t.plans ≡ plan_row env (new_plan env actor input amount) ∷ s.plans)

Added-AddedPlan :
    (env : Env) (actor : AuthenticatedUser) (input : CreatePlanInput) (amount : Money)
    (s t : SavingsDb)
    → money_new input.target_amount_minor input.currency ≡ ok amount
    → Added env actor input amount s t
    → AddedPlan actor input s t
unfolding money_new new_plan plan_row
Added-AddedPlan env actor input amount s t priced (parent, named, child, added) = (
  parent,
  named,
  ground arith,
  child,
  (
    plan_row env (new_plan env actor input amount),
    added,
    refl,
    refl,
    refl,
    refl,
    ground arith,
    ground arith,
  ),
)

create_plan-priced :
    (env : Env) (actor : AuthenticatedUser) (input : CreatePlanInput) (amount : Money)
    (s : SavingsDb)
    → money_new input.target_amount_minor input.currency ≡ ok amount
    → ((create_plan env actor input s).1.plans ≡ s.plans)
      ⊎ Added env actor input amount s ((create_plan env actor input s).1)
unfolding create_plan save_plan create_plan_row record_audit find_child
create_plan-priced env actor input amount s priced = ground arith

create_plan-unpriced :
    (env : Env) (actor : AuthenticatedUser) (input : CreatePlanInput) (e : String) (s : SavingsDb)
    → money_new input.target_amount_minor input.currency ≡ err e
    → (create_plan env actor input s).1.plans ≡ s.plans
unfolding create_plan save_plan create_plan_row record_audit
create_plan-unpriced env actor input e s failed = ground arith

-- Whatever creating a plan answers, the plans are as they were, or have one more: a draft of the parent
-- who asked for it, for a child of that parent, with the name and the amount that were asked for.
pub create_plan-AddedPlan :
    (env : Env) (actor : AuthenticatedUser) (input : CreatePlanInput) (s : SavingsDb)
    → ((create_plan env actor input s).1.plans ≡ s.plans)
      ⊎ AddedPlan actor input s ((create_plan env actor input s).1)
create_plan-AddedPlan env actor input s =
    elim (Result-cases (money_new input.target_amount_minor input.currency)) [
      | inl (amount, priced) ↦ elim (create_plan-priced env actor input amount s priced) [
        | inl same ↦ inl same
        | inr added ↦ inr (
            Added-AddedPlan env actor input amount s ((create_plan env actor input s).1) priced
              added)
      ]
      | inr (e, failed) ↦ inl (create_plan-unpriced env actor input e s failed)
    ]

-- A request for a milestone with a target of 0 fails and writes nothing.
pub create_milestone-zero :
    (env : Env) (date_text : ℕ → String) (actor : AuthenticatedUser) (input : CreateMilestoneInput)
    (s : SavingsDb)
    → input.target_amount_minor ≡ pos 0
    → (succeeds ((create_milestone env date_text actor input s).0) ≡ false)
      × ((create_milestone env date_text actor input s).1 ≡ s)
unfolding create_milestone save_milestone create_milestone_row money_new require
create_milestone-zero env date_text actor input s zero = ground arith
