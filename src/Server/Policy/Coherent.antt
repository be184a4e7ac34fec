-- ===== src/Server/Policy/Coherent.antt =====
-- Policy updates, src/chute/server.py, and the account index.
use chute.Prelude.{
  ℕ, List, Bool, none, some, true, false, [], ◌∷◌, refl, inl, inr, Option-cases, if_cases, ◌+◌, not,
}
use chute.Prelude.Text.{Text, text_eq}
use chute.Prelude.Dict.{pop, put, get}
use chute.Server.State.{Relay, Budget, registration_at, write_registration}
use chute.Server.Accounts.{account_has_local_work}
use chute.Server.Registry.{labels_of, held_by}
use chute.Server.Registry.Coherent.{IsCoherent, holds}
use chute.Server.Registry.Changes.{write_registration-IsCoherent}
use chute.Server.Revoke.{Action, revoke_lease, drain, close, other}
use chute.Server.Revoke.Coherent.{revoke_within-IsCoherent}
use chute.Server.Policy.{
  write_budget, write_budgets, set_account_budget, revoke_as, revoke_ids, revoke_all, set_budgets,
  carry_out, apply_policy_update, LeaseRevocation, AccountBudgetUpdate, PolicyUpdate,
  valid_policy_update,
}

write_budget_at-IsCoherent :
    (budget : Budget) (r : ℕ) (relay : Relay)
    → IsCoherent relay
    → IsCoherent (elim (registration_at r relay) [
      | none ↦ relay
      | some registration ↦ write_registration r (record registration { budget = budget }) relay
    ])
write_budget_at-IsCoherent budget r relay h = elim (Option-cases (registration_at r relay)) [
  | inl e ↦ rw e h
  | inr (registration, e) ↦ rw e (write_registration-IsCoherent r registration _ relay e refl h)
]

write_budget-IsCoherent :
    (budget : Budget) (label : Text) (relay : Relay)
    → IsCoherent relay
    → IsCoherent (write_budget budget label relay)
unfolding write_budget
write_budget-IsCoherent budget label relay h = elim (Option-cases (get label relay.agents)) [
  | inl e ↦ rw (e, write_budget) h
  | inr (r, e) ↦ rw (e, write_budget) (write_budget_at-IsCoherent budget r relay h)
]

write_budgets-IsCoherent :
    (budget : Budget) (labels : List Text) (relay : Relay)
    → IsCoherent relay
    → IsCoherent (write_budgets budget labels relay)
unfolding write_budgets
write_budgets-IsCoherent budget [] relay h = h
write_budgets-IsCoherent budget (label ∷ labels) relay h =
    write_budgets-IsCoherent budget labels _ (write_budget-IsCoherent budget label relay h)

overrides-IsCoherent :
    (overrides : List (Text × Budget)) (relay : Relay)
    → IsCoherent relay
    → IsCoherent (record relay { account_budget_overrides = overrides })
unfolding holds held_by registration_at
overrides-IsCoherent overrides relay h = h

set_account_budget-IsCoherent :
    (account : Text) (budget : Budget) (relay : Relay)
    → IsCoherent relay
    → IsCoherent (set_account_budget account budget relay)
unfolding set_account_budget
set_account_budget-IsCoherent account budget relay h =
    if_cases IsCoherent (not (account_has_local_work account relay))
      (record relay { account_budget_overrides = pop account relay.account_budget_overrides })
      (write_budgets budget (labels_of account relay.account_labels) (record relay {
        account_budget_overrides = put account budget relay.account_budget_overrides;
      }))
      (λ idle. overrides-IsCoherent _ relay h)
      (λ busy. write_budgets-IsCoherent budget _ _ (overrides-IsCoherent _ relay h))

revoke_as-IsCoherent :
    (lease : Text) (action : Action) (relay : Relay)
    → IsCoherent relay
    → IsCoherent (revoke_as lease action relay)
unfolding revoke_as revoke_lease
revoke_as-IsCoherent [] drain relay h = h
revoke_as-IsCoherent (c ∷ cs) drain relay h = revoke_within-IsCoherent (c ∷ cs) _ relay h
revoke_as-IsCoherent [] close relay h = h
revoke_as-IsCoherent (c ∷ cs) close relay h = revoke_within-IsCoherent (c ∷ cs) 0 relay h
revoke_as-IsCoherent lease other relay h = h

revoke_ids-IsCoherent :
    (leases : List Text) (relay : Relay) → IsCoherent relay → IsCoherent (revoke_ids leases relay)
unfolding revoke_ids
revoke_ids-IsCoherent [] relay h = h
revoke_ids-IsCoherent (lease ∷ leases) relay h =
    revoke_ids-IsCoherent leases _ (revoke_as-IsCoherent lease drain relay h)

revoke_all-IsCoherent :
    (revocations : List LeaseRevocation) (relay : Relay)
    → IsCoherent relay
    → IsCoherent (revoke_all revocations relay)
unfolding revoke_all
revoke_all-IsCoherent [] relay h = h
revoke_all-IsCoherent (revocation ∷ revocations) relay h =
    revoke_all-IsCoherent revocations _
      (revoke_as-IsCoherent revocation.lease_id revocation.action relay h)

set_budgets-IsCoherent :
    (updates : List AccountBudgetUpdate) (relay : Relay)
    → IsCoherent relay
    → IsCoherent (set_budgets updates relay)
unfolding set_budgets
set_budgets-IsCoherent [] relay h = h
set_budgets-IsCoherent (update ∷ updates) relay h =
    set_budgets-IsCoherent updates _
      (set_account_budget-IsCoherent update.account_id update.budget relay h)

carry_out-IsCoherent :
    (update : PolicyUpdate) (relay : Relay) → IsCoherent relay → IsCoherent (carry_out update relay)
unfolding carry_out
carry_out-IsCoherent update relay h = set_budgets-IsCoherent update.account_budgets _ (
    revoke_all-IsCoherent update.lease_revocations _
      (revoke_ids-IsCoherent update.revoke_lease_ids relay h))

-- Any policy update, with its revocations and its budgets, keeps the account index exact, refused
-- or carried out.
pub apply_policy_update-IsCoherent :
    (update : PolicyUpdate) (relay : Relay)
    → IsCoherent relay
    → IsCoherent (apply_policy_update update relay).0
unfolding apply_policy_update holds held_by registration_at
apply_policy_update-IsCoherent update relay h =
    if_cases (λ (answer : Relay × Bool). IsCoherent answer.0)
      (not (valid_policy_update update relay.policy_version))
      (record relay { policy_updates_rejected = relay.policy_updates_rejected + 1 }, false)
      (
        record (carry_out update relay) {
          policy_version = update.version;
          policy_updates_applied = (carry_out update relay).policy_updates_applied + 1;
        },
        true,
      )
      (λ refused. h) (λ valid. carry_out-IsCoherent update relay h)
