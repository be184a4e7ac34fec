-- ===== src/Server/Registry.antt =====
-- The registries of `Server`, src/chute/server.py: which registration holds which label, and the
-- indexes by account and by lease. A set of labels is a list without repetition.
pub mod Sets
pub mod Coherent
pub mod Changes
use chute.Prelude.{
  ℕ, List, Bool, Option, none, some, false, [], ◌∷◌, ◌++◌, ◌==◌, ◌+◌, ◌||◌, if◌then◌else◌, is_empty,
  length, ltb,
}
use chute.Prelude.Text.{Text, text_eq, text_beq}
use chute.Prelude.Dict.{get, put, pop, has}
use chute.Server.State.{Relay, Registration, registration_at}
use chute.Server.Accounts.{drop_bandwidth_if_idle}

unfoldable pub mem : Text → List Text → Bool
mem l [] = false
mem l (x ∷ xs) = text_beq x l || mem l xs

-- `labels.add(label)`
unfoldable pub add : Text → List Text → List Text
unfolding mem
add l xs = if mem l xs then xs else xs ++ (l ∷ [])

-- `labels.discard(label)`
unfoldable pub discard_label : Text → List Text → List Text
discard_label l [] = []
discard_label l (x ∷ xs) = let rest = discard_label l xs in if text_beq x l then rest else x ∷ rest

abbrev pub Index : Type 0
Index = List (Text × List Text)

unfoldable pub labels_of : Text → Index → List Text
labels_of k index = elim (get k index) [ none ↦ [] | some labels ↦ labels ]

-- `index.setdefault(k, set()).add(label)`
unfoldable pub add_to : Text → Text → Index → Index
add_to k label index = put k (add label (labels_of k index)) index

-- An entry of an index is kept while it has labels.
unfoldable pub keep_labels : Text → List Text → Index → Index
keep_labels k left index = if is_empty left then pop k index else put k left index

unfoldable pub remove_from : Text → Text → Index → Index
unfolding labels_of keep_labels
remove_from k label index = elim (get k index) [
  | none ↦ index
  | some labels ↦ keep_labels k (discard_label label labels) index
]

-- `_index_lease_label`, `_unindex_lease_label`
unfoldable pub index_lease_label : Text → Registration → Index → Index
index_lease_label label registration index = elim registration.lease_id [
  | none ↦ index
  | some lease ↦ add_to lease label index
]

unfoldable pub unindex_lease_label : Text → Registration → Index → Index
unindex_lease_label label registration index = elim registration.lease_id [
  | none ↦ index
  | some lease ↦ remove_from lease label index
]

-- `_deregister_if_current` past its guard, for the registration in place.
unfoldable pub deregister : Text → Registration → Relay → Relay
deregister label current relay = drop_bandwidth_if_idle current.account_id (record relay {
  agents = pop label relay.agents;
  lease_labels = unindex_lease_label label current relay.lease_labels;
  account_labels = remove_from current.account_id label relay.account_labels;
})

-- The registration that `label` holds among `agents`.
unfoldable pub held_by : Text → List (Text × ℕ) → Relay → Option Registration
held_by label agents relay = elim (get label agents) [
  | none ↦ none
  | some r ↦ registration_at r relay
]

-- `_deregister_if_current`
unfoldable pub deregister_if_current : Text → ℕ → Relay → Relay
deregister_if_current label mux relay = elim (held_by label relay.agents relay) [
  | none ↦ relay
  | some current ↦ if current.mux == mux then deregister label current relay else relay
]

-- `_index_pending_registration`, with the entry of `_pending_agents` that its callers write first.
unfoldable pub hold_pending : Text → ℕ → Registration → Relay → Relay
hold_pending label r registration relay = record relay {
  pending_agents = put label r relay.pending_agents;
  pending_lease_labels = index_lease_label label registration relay.pending_lease_labels;
}

unfoldable pub is_held : Text → ℕ → List (Text × ℕ) → Bool
is_held label r agents = elim (get label agents) [ none ↦ false | some q ↦ q == r ]

-- `_drop_pending_if_current`
unfoldable pub drop_pending_if_current : Text → ℕ → Registration → Relay → Relay
drop_pending_if_current label r registration relay =
    if is_held label r relay.pending_agents
    then record relay {
      pending_agents = pop label relay.pending_agents;
      pending_lease_labels = unindex_lease_label label registration relay.pending_lease_labels;
    }
    else relay

-- What `_install_registration` does about the registration that it replaces.
unfoldable pub displace : Text → Registration → Registration → Relay → Relay
displace label previous registration relay =
    let unindexed = record relay {
      lease_labels = unindex_lease_label label previous relay.lease_labels;
    } in
    if text_beq previous.account_id registration.account_id
    then unindexed
    else drop_bandwidth_if_idle previous.account_id (record unindexed {
      account_labels = remove_from previous.account_id label unindexed.account_labels;
    })

unfoldable pub displace_held : Text → Registration → Relay → Relay
displace_held label registration relay = elim (held_by label relay.agents relay) [
  | none ↦ relay
  | some previous ↦ displace label previous registration relay
]

-- `_install_registration`, for the registration at place `r`.
unfoldable pub install_registration : Text → ℕ → Registration → Relay → Relay
install_registration label r registration relay =
    let displaced = displace_held label registration relay in
    record displaced {
      agents = put label r displaced.agents;
      account_labels = add_to registration.account_id label displaced.account_labels;
      lease_labels = index_lease_label label registration displaced.lease_labels;
    }

-- `_global_agent_budget_ok`
unfoldable pub global_agent_budget_ok : Text → Relay → Bool
global_agent_budget_ok label relay =
    has label relay.agents
    || ltb (length relay.agents + length relay.pending_agents) relay.max_agents
