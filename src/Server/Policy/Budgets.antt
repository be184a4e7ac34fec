-- ===== src/Server/Policy/Budgets.antt =====
-- What a policy update leaves of the accounts' budgets, src/chute/server.py.
use chute.Prelude.{
  ℕ, List, Option, none, some, true, false, [], ◌∷◌, ◌≡◌, ◌∙◌, ap, refl, inl, inr, arith,
  Option-cases, Bool-cases, All, any, get_elem?, if◌then◌else◌,
}
use chute.Prelude.Text.{Text, text_eq, text_beq, text_beq_iff}
use chute.Prelude.Dict.{put, get, get-put, get-pop}
use chute.Server.State.{Relay, Registration, Budget, registration_at, write_registration}
use chute.Server.Accounts.{account_has_local_work, is_pending_for}
use chute.Server.Registry.{labels_of, mem}
use chute.Server.Registry.Coherent.{is_of}
use chute.Server.Registry.Changes.{is_of-set, is_pending_for_lem}
use chute.Server.Policy.{
  write_budget, write_budgets, set_account_budget, set_budgets, AccountBudgetUpdate,
  valid_account_budgets,
}

-- Budgets apart, the relays are the same for an account: it has work in both or in neither.
pub record AreAlike (relay after : Relay) : Type 0 where
  pub same_labels : after.account_labels ≡ relay.account_labels
  pub same_visitors : after.account_active_visitors ≡ relay.account_active_visitors
  pub same_buffered : after.account_buffered ≡ relay.account_buffered
  pub same_pending : after.pending_agents ≡ relay.pending_agents
  pub same_owners :
      (account : Text) (r : ℕ)
      → is_of account (get_elem? after.registrations r)
        ≡ is_of account (get_elem? relay.registrations r)

AreAlike-refl : (relay : Relay) → AreAlike relay relay
AreAlike-refl relay = record {
  same_labels = refl;
  same_visitors = refl;
  same_buffered = refl;
  same_pending = refl;
  same_owners = λ account r. refl;
}

overrides-AreAlike :
    (overrides : List (Text × Budget)) (relay : Relay)
    → AreAlike relay (record relay { account_budget_overrides = overrides })
overrides-AreAlike overrides relay = record {
  same_labels = refl;
  same_visitors = refl;
  same_buffered = refl;
  same_pending = refl;
  same_owners = λ account r. refl;
}

AreAlike-trans : (a b c : Relay) → AreAlike a b → AreAlike b c → AreAlike a c
AreAlike-trans a b c h k = record {
  same_labels = k.same_labels ∙ h.same_labels;
  same_visitors = k.same_visitors ∙ h.same_visitors;
  same_buffered = k.same_buffered ∙ h.same_buffered;
  same_pending = k.same_pending ∙ h.same_pending;
  same_owners = λ account r. k.same_owners account r ∙ h.same_owners account r;
}

any_pending :
    (relay after : Relay) (account : Text) (pending : List (Text × ℕ))
    → AreAlike relay after
    → any (is_pending_for after account) pending ≡ any (is_pending_for relay account) pending
any_pending relay after account [] h = refl
any_pending relay after account ((l, r) ∷ pending) h = ground (
  arith,
  any_pending relay after account pending h,
  is_pending_for_lem relay account l r,
  is_pending_for_lem after account l r,
  h.same_owners account r,
)

account_has_local_work_lem :
    (relay after : Relay) (account : Text)
    → AreAlike relay after
    → account_has_local_work account after ≡ account_has_local_work account relay
unfolding account_has_local_work
account_has_local_work_lem relay after account h = ground (
  arith,
  h.same_labels,
  h.same_visitors,
  h.same_buffered,
  h.same_pending,
  any_pending relay after account relay.pending_agents h,
)

write_registration-AreAlike :
    (r : ℕ) (old new : Registration) (relay : Relay)
    → registration_at r relay ≡ some old
    → new.account_id ≡ old.account_id
    → AreAlike relay (write_registration r new relay)
unfolding write_registration registration_at
write_registration-AreAlike r old new relay e h = record {
  same_labels = refl;
  same_visitors = refl;
  same_buffered = refl;
  same_pending = refl;
  same_owners = λ account q. is_of-set account relay.registrations r q old new e h;
}

-- Writing budgets into registrations changes nothing else.
write_budget-AreAlike :
    (budget : Budget) (label : Text) (relay : Relay)
    → AreAlike relay (write_budget budget label relay)
      × ((write_budget budget label relay).account_budget_overrides
          ≡ relay.account_budget_overrides)
unfolding write_budget write_registration
write_budget-AreAlike budget label relay = elim (Option-cases (get label relay.agents)) [
  | inl e ↦ rw (e, write_budget) (AreAlike-refl relay, refl)
  | inr (r, e) ↦ elim (Option-cases (registration_at r relay)) [
    | inl f ↦ rw (e, write_budget, f) (AreAlike-refl relay, refl)
    | inr (registration, f) ↦
        rw (e, write_budget, f) (write_registration-AreAlike r registration _ relay f refl, refl)
  ]
]

write_budgets-AreAlike :
    (budget : Budget) (labels : List Text) (relay : Relay)
    → AreAlike relay (write_budgets budget labels relay)
      × ((write_budgets budget labels relay).account_budget_overrides
          ≡ relay.account_budget_overrides)
unfolding write_budgets
write_budgets-AreAlike budget [] relay = (AreAlike-refl relay, refl)
write_budgets-AreAlike budget (label ∷ labels) relay =
    let here = write_budget-AreAlike budget label relay in
    let rest = write_budgets-AreAlike budget labels (write_budget budget label relay) in
    (AreAlike-trans relay _ _ here.0 rest.0, rest.1 ∙ here.1)

-- The budget in force for an account with work of the relay is the one given; an account without
-- any has none.
abbrev pub in_force : Text → Budget → Relay → Option Budget
in_force account budget relay = if account_has_local_work account relay then some budget else none

set_account_budget_lem :
    (account : Text) (budget : Budget) (relay : Relay)
    → AreAlike relay (set_account_budget account budget relay)
      × ((a : Text)
          → get a (set_account_budget account budget relay).account_budget_overrides ≡ (
              if text_beq account a
              then in_force account budget relay
              else get a relay.account_budget_overrides))
unfolding set_account_budget
set_account_budget_lem account budget relay =
    elim (Bool-cases (account_has_local_work account relay)) [
      | inl busy ↦
          let noted = record relay {
            account_budget_overrides = put account budget relay.account_budget_overrides;
          } in
          let w = write_budgets-AreAlike budget (labels_of account relay.account_labels) noted in
          rw (busy, set_account_budget)
            (
              AreAlike-trans relay noted _ (overrides-AreAlike _ relay) w.0,
              (λ a.
                  ap (λ d. get a d) w.1 ∙ get-put account a budget relay.account_budget_overrides),
            )
      | inr idle ↦
          rw (idle, set_account_budget)
            (overrides-AreAlike _ relay, (λ a. get-pop account a relay.account_budget_overrides))
    ]

-- Every update's account has the budget of the update in force.
abbrev pub AreSet : Relay → List AccountBudgetUpdate → Type 0
AreSet relay = All (λ update.
    get update.account_id relay.account_budget_overrides
    ≡ in_force update.account_id update.budget relay)

-- An account that the list does not name keeps its budget.
pub set_budgets_lem :
    (updates : List AccountBudgetUpdate) (seen : List Text) (relay : Relay)
    → valid_account_budgets updates seen ≡ true
    → AreAlike relay (set_budgets updates relay)
      × ((a : Text)
          → mem a seen ≡ true
          → get a (set_budgets updates relay).account_budget_overrides
            ≡ get a relay.account_budget_overrides)
      × AreSet (set_budgets updates relay) updates
unfolding set_budgets valid_account_budgets mem
set_budgets_lem [] seen relay h = (AreAlike-refl relay, (λ a m. refl), tt)
set_budgets_lem (update ∷ updates) seen relay h =
    let next = set_account_budget update.account_id update.budget relay in
    let here = set_account_budget_lem update.account_id update.budget relay in
    let rest = set_budgets_lem updates (update.account_id ∷ seen) next (ground (arith, h)) in
    let fresh : mem update.account_id seen ≡ false = ground (arith, h) in
    let alike = AreAlike-trans relay next (set_budgets updates next) here.0 rest.0 in
    (
      alike,
      (λ a m.
          let kept = rest.1 a (ground (arith, m)) in
          let other : text_beq update.account_id a ≡ false =
            ground (arith, m, fresh, text_beq_iff update.account_id a) in
          kept ∙ ground (arith, here.1 a, other)),
      (
        ground (
          arith,
          rest.1 update.account_id
              (ground (arith, text_beq_iff update.account_id update.account_id)),
          here.1 update.account_id,
          account_has_local_work_lem relay (set_budgets updates next) update.account_id alike,
          text_beq_iff update.account_id update.account_id,
        ),
        rest.2,
      ),
    )

-- The budgets in force are those of any relay that differs in nothing they depend on.
pub AreSet-AreAlike :
    (updates : List AccountBudgetUpdate) (relay after : Relay)
    → AreAlike relay after
    → after.account_budget_overrides ≡ relay.account_budget_overrides
    → AreSet relay updates
    → AreSet after updates
AreSet-AreAlike [] relay after alike same set = tt
AreSet-AreAlike (update ∷ updates) relay after alike same set = (
  ground (
    arith,
    set.0,
    ap (λ overrides. get update.account_id overrides) same,
    account_has_local_work_lem relay after update.account_id alike,
  ),
  AreSet-AreAlike updates relay after alike same set.1,
)
