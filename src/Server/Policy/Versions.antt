-- ===== src/Server/Policy/Versions.antt =====
-- What a policy update does to the relay's version and to the budgets, src/chute/server.py.
use chute.Prelude.{ℕ, true, false, ◌≡◌, ◌<◌, ◌+◌, ◌⊎◌, inl, inr, arith, refl, Bool-cases}
use chute.Server.State.{Relay}
use chute.Server.Policy.{
  valid_policy_update, apply_policy_update, PolicyUpdate, carry_out, valid_account_budgets,
}
use chute.Server.Policy.Budgets.{AreSet, AreSet-AreAlike, set_budgets_lem}
use chute.Prelude.{[]}

lt_of_valid :
    (update : PolicyUpdate) (version : ℕ)
    → valid_policy_update update version ≡ true
    → version < update.version
unfolding valid_policy_update
lt_of_valid update version h = ground arith

valid_budgets_of_valid :
    (update : PolicyUpdate) (version : ℕ)
    → valid_policy_update update version ≡ true
    → valid_account_budgets update.account_budgets [] ≡ true
unfolding valid_policy_update
valid_budgets_of_valid update version h = ground (arith, h)

-- What the relay notes of an update that it has carried out.
abbrev noted : PolicyUpdate → Relay → Relay
noted update carried = record carried {
  policy_version = update.version;
  policy_updates_applied = carried.policy_updates_applied + 1;
}

carry_out-AreSet :
    (update : PolicyUpdate) (relay : Relay)
    → valid_account_budgets update.account_budgets [] ≡ true
    → AreSet (carry_out update relay) update.account_budgets
unfolding carry_out
carry_out-AreSet update relay h = (set_budgets_lem update.account_budgets [] _ h).2

noted-AreSet :
    (update : PolicyUpdate) (carried : Relay)
    → AreSet carried update.account_budgets
    → AreSet (noted update carried) update.account_budgets
noted-AreSet update carried set =
    AreSet-AreAlike update.account_budgets carried (noted update carried)
      (record {
        same_labels = refl;
        same_visitors = refl;
        same_buffered = refl;
        same_pending = refl;
        same_owners = λ account r. refl;
      })
      refl set

-- An update is either carried out or refused. Once it is carried out, the version in force has
-- risen to the update's, and of the accounts that the update gives budgets, each that then has
-- work of the relay has the update's budget as its own, and each other has none. A refusal changes
-- nothing of the relay but the count of refusals.
pub apply_policy_update_cases :
    (update : PolicyUpdate) (relay : Relay)
    → ((apply_policy_update update relay).1 ≡ true
        × (relay.policy_version < update.version)
        × ((apply_policy_update update relay).0.policy_version ≡ update.version)
        × AreSet (apply_policy_update update relay).0 update.account_budgets)
      ⊎ ((apply_policy_update update relay).1 ≡ false
          × ((apply_policy_update update relay).0
              ≡ record relay { policy_updates_rejected = relay.policy_updates_rejected + 1 }))
unfolding apply_policy_update
apply_policy_update_cases update relay =
    elim (Bool-cases (valid_policy_update update relay.policy_version)) [
      | inl e ↦
          let budgets = valid_budgets_of_valid update relay.policy_version e in
          let set = noted-AreSet update _ (carry_out-AreSet update relay budgets) in
          rw e (inl (refl, lt_of_valid update relay.policy_version e, refl, set))
      | inr e ↦ rw e (inr (refl, refl))
    ]
