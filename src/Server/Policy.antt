-- ===== src/Server/Policy.antt =====
-- Policy updates, src/chute/server.py: their validation and how one is applied. `PolicyUpdate` is
-- of src/chute/control.py; its fields are of the types declared there.
pub mod Versions
pub mod Budgets
pub mod Coherent
use chute.Prelude.{
  ℕ, List, Bool, Option, none, some, true, false, [], ◌∷◌, ◌+◌, ◌&&◌, ◌||◌, not, if◌then◌else◌,
  is_empty, length, leb, ltb,
}
use chute.Prelude.Text.{Text, text_eq}
use chute.Prelude.Dict.{get, put, pop}
use chute.Server.State.{Relay, Budget, registration_at, write_registration}
use chute.Server.Accounts.{account_has_local_work, valid_budget}
use chute.Server.Registry.{mem, labels_of}
use chute.Server.Revoke.{Action, revoke_lease, drain, close, other}

-- `LeaseRevocation`, `AccountBudgetUpdate`, `PolicyUpdate`
pub record LeaseRevocation : Type 0 where
  pub lease_id : Text
  pub action : Action

pub record AccountBudgetUpdate : Type 0 where
  pub account_id : Text
  pub budget : Budget

pub record PolicyUpdate : Type 0 where
  pub version : ℕ
  pub revoke_lease_ids : List Text
  pub lease_revocations : List LeaseRevocation
  pub account_budgets : List AccountBudgetUpdate

abbrev pub max_policy_update_revoke_lease_ids : ℕ
max_policy_update_revoke_lease_ids = 10000

abbrev pub max_policy_update_lease_revocations : ℕ
max_policy_update_lease_revocations = 10000

abbrev pub max_policy_update_account_budgets : ℕ
max_policy_update_account_budgets = 4096

abbrev pub lease_expiry_drain_timeout : ℕ
lease_expiry_drain_timeout = 10

-- The loops of `_valid_policy_update`; `seen` is the set that each fills.
unfoldable pub see_lease_ids : List Text → List Text → Option (List Text)
see_lease_ids [] seen = some seen
see_lease_ids (lease ∷ leases) seen =
    let rest = see_lease_ids leases (lease ∷ seen) in
    if is_empty lease || mem lease seen then none else rest

unfoldable pub known_action : Action → Bool
known_action drain = true
known_action close = true
known_action other = false

unfoldable pub valid_revocations : List LeaseRevocation → List Text → Bool
valid_revocations [] seen = true
valid_revocations (revocation ∷ revocations) seen =
    not (is_empty revocation.lease_id)
    && known_action revocation.action
    && not (mem revocation.lease_id seen)
    && valid_revocations revocations (revocation.lease_id ∷ seen)

unfoldable pub valid_account_budgets : List AccountBudgetUpdate → List Text → Bool
valid_account_budgets [] seen = true
valid_account_budgets (update ∷ updates) seen =
    not (is_empty update.account_id)
    && not (mem update.account_id seen)
    && valid_budget update.budget
    && valid_account_budgets updates (update.account_id ∷ seen)

-- `_valid_policy_update` against the version in force
unfoldable pub valid_policy_update : PolicyUpdate → ℕ → Bool
valid_policy_update update version =
    ltb version update.version
    && leb (length update.revoke_lease_ids) max_policy_update_revoke_lease_ids
    && elim (see_lease_ids update.revoke_lease_ids []) [
      | none ↦ false
      | some revoked ↦
          leb (length update.lease_revocations) max_policy_update_lease_revocations
          && valid_revocations update.lease_revocations revoked
    ]
    && leb (length update.account_budgets) max_policy_update_account_budgets
    && valid_account_budgets update.account_budgets []

unfoldable pub write_budget : Budget → Text → Relay → Relay
write_budget budget label relay = elim (get label relay.agents) [
  | none ↦ relay
  | some r ↦ elim (registration_at r relay) [
    | none ↦ relay
    | some registration ↦ write_registration r (record registration { budget = budget }) relay
  ]
]

unfoldable pub write_budgets : Budget → List Text → Relay → Relay
write_budgets budget [] relay = relay
write_budgets budget (label ∷ labels) relay =
    write_budgets budget labels (write_budget budget label relay)

-- `_set_account_budget`
unfoldable pub set_account_budget : Text → Budget → Relay → Relay
set_account_budget account budget relay =
    if not (account_has_local_work account relay)
    then record relay { account_budget_overrides = pop account relay.account_budget_overrides }
    else write_budgets budget (labels_of account relay.account_labels) (record relay {
      account_budget_overrides = put account budget relay.account_budget_overrides;
    })

-- A revocation of an update. Its action has passed the validation, so no `ValueError` comes.
unfoldable pub revoke_as : Text → Action → Relay → Relay
revoke_as lease action relay = elim (revoke_lease lease lease_expiry_drain_timeout action relay) [
  | none ↦ relay
  | some answer ↦ answer.0
]

unfoldable pub revoke_ids : List Text → Relay → Relay
revoke_ids [] relay = relay
revoke_ids (lease ∷ leases) relay = revoke_ids leases (revoke_as lease drain relay)

unfoldable pub revoke_all : List LeaseRevocation → Relay → Relay
revoke_all [] relay = relay
revoke_all (revocation ∷ revocations) relay =
    revoke_all revocations (revoke_as revocation.lease_id revocation.action relay)

unfoldable pub set_budgets : List AccountBudgetUpdate → Relay → Relay
set_budgets [] relay = relay
set_budgets (update ∷ updates) relay =
    set_budgets updates (set_account_budget update.account_id update.budget relay)

unfoldable pub carry_out : PolicyUpdate → Relay → Relay
carry_out update relay =
    set_budgets update.account_budgets
      (revoke_all update.lease_revocations (revoke_ids update.revoke_lease_ids relay))

-- `_apply_policy_update`
unfoldable pub apply_policy_update : PolicyUpdate → Relay → Relay × Bool
apply_policy_update update relay =
    let carried = carry_out update relay in
    if not (valid_policy_update update relay.policy_version)
    then (record relay { policy_updates_rejected = relay.policy_updates_rejected + 1 }, false)
    else (
      record carried {
        policy_version = update.version;
        policy_updates_applied = carried.policy_updates_applied + 1;
      },
      true,
    )
