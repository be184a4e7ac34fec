-- ===== src/Server/Registry/Coherent.antt =====
-- The account index of src/chute/server.py against the registry of agents, as an invariant.
use chute.Prelude.{
  ℕ, List, Bool, Option, none, some, true, false, ◌≡◌, arith, refl, if◌then◌else◌, if_cases,
  get_elem?, Option-cases, inl, inr,
}
use chute.Prelude.Text.{Text, text_eq, text_beq, text_beq_iff}
use chute.Prelude.Dict.{get, put, pop, get-put, get-pop}
use chute.Server.State.{Relay, Registration, registration_at}
use chute.Server.Accounts.{drop_bandwidth_if_idle, account_has_local_work}
use chute.Server.Registry.{
  held_by, deregister, Index, remove_from, displace, displace_held, add_to, install_registration,
  unindex_lease_label,
}
use chute.Server.Registry.Sets.{listed, listed-remove_from, listed-add_to}

unfoldable pub is_of : Text → Option Registration → Bool
is_of account none = false
is_of account (some registration) = text_beq registration.account_id account

-- Whether a registration of the account holds the label.
unfoldable pub holds : Text → Text → Relay → Bool
holds account label relay = is_of account (held_by label relay.agents relay)

-- Every account lists exactly the labels that its registrations hold.
abbrev pub IsCoherent : Relay → Type 0
IsCoherent relay =
    (account label : Text) → listed account label relay.account_labels ≡ holds account label relay

drop_bandwidth_if_idle-IsCoherent :
    (account : Text) (relay : Relay)
    → IsCoherent relay
    → IsCoherent (drop_bandwidth_if_idle account relay)
unfolding drop_bandwidth_if_idle holds held_by registration_at
drop_bandwidth_if_idle-IsCoherent account relay h =
    if_cases IsCoherent (account_has_local_work account relay) relay
      (record relay {
        account_bandwidth = pop account relay.account_bandwidth;
        account_budget_overrides = pop account relay.account_budget_overrides;
      })
      (λ e. h) (λ e. h)

-- The registration at the place that `agents` gives the label.
abbrev pub at_label : Text → List (Text × ℕ) → List Registration → Option Registration
at_label label agents registrations = elim (get label agents) [
  | none ↦ none
  | some r ↦ get_elem? registrations r
]

at_label-pop :
    (label l : Text) (agents : List (Text × ℕ)) (registrations : List Registration)
    → at_label l (pop label agents) registrations
      ≡ (if text_beq label l then none else at_label l agents registrations)
at_label-pop label l agents registrations = ground (arith, get-pop label l agents)

pub at_label-put :
    (label l : Text) (r : ℕ) (agents : List (Text × ℕ)) (registrations : List Registration)
    → at_label l (put label r agents) registrations
      ≡ (if text_beq label l then get_elem? registrations r else at_label l agents registrations)
at_label-put label l r agents registrations = ground (arith, get-put label l r agents)

-- What leaves the index with a label that its holder gives up.
removed_lem :
    (label l account : Text) (current : Registration) (found : Option Registration) (index : Index)
    → (text_beq label l ≡ true → found ≡ some current)
    → listed account l index ≡ is_of account found
    → listed account l (remove_from current.account_id label index)
      ≡ is_of account (if text_beq label l then none else found)
unfolding is_of
removed_lem label l account current found index f h =
    ground
      (arith, listed-remove_from current.account_id account l label index, text_beq_iff label l)

-- Deregistering the registration that holds the label keeps the account index exact.
pub deregister-IsCoherent :
    (label : Text) (current : Registration) (relay : Relay)
    → held_by label relay.agents relay ≡ some current
    → IsCoherent relay
    → IsCoherent (deregister label current relay)
unfolding deregister holds held_by registration_at
deregister-IsCoherent label current relay e h =
    drop_bandwidth_if_idle-IsCoherent current.account_id _ (λ account l.
      rw (at_label-pop label l relay.agents relay.registrations) (
        removed_lem label l account current (at_label l relay.agents relay.registrations)
          relay.account_labels (λ same. ground (arith, text_beq_iff label l)) (h account l)))

-- The fields that `drop_bandwidth_if_idle` leaves as they were, here.
abbrev pub Kept : Relay → Relay → Type 0
Kept relay after = (after.agents ≡ relay.agents) × (after.registrations ≡ relay.registrations)

pub drop_bandwidth_if_idle-Kept :
    (account : Text) (relay : Relay)
    → Kept relay (drop_bandwidth_if_idle account relay)
      × ((drop_bandwidth_if_idle account relay).account_labels ≡ relay.account_labels)
unfolding drop_bandwidth_if_idle
drop_bandwidth_if_idle-Kept account relay = ground arith

displace-Kept :
    (label : Text) (previous registration : Registration) (relay : Relay)
    → Kept relay (displace label previous registration relay)
      × ((displace label previous registration relay).account_labels ≡ (
          if text_beq previous.account_id registration.account_id
          then relay.account_labels
          else remove_from previous.account_id label relay.account_labels))
unfolding displace
displace-Kept label previous registration relay = ground (
  arith,
  drop_bandwidth_if_idle-Kept previous.account_id (record relay {
    lease_labels = unindex_lease_label label previous relay.lease_labels;
    account_labels = remove_from previous.account_id label relay.account_labels;
  }),
)

-- The index of the accounts once the previous holder of the label has gone from it.
abbrev displaced_labels : Text → Registration → Option Registration → Index → Index
displaced_labels label registration none index = index
displaced_labels label registration (some previous) index =
    if text_beq previous.account_id registration.account_id
    then index
    else remove_from previous.account_id label index

pub displace_held-Kept :
    (label : Text) (registration : Registration) (relay : Relay)
    → Kept relay (displace_held label registration relay)
      × ((displace_held label registration relay).account_labels
          ≡ displaced_labels label registration
              (held_by label relay.agents relay)
              relay.account_labels)
unfolding displace_held
displace_held-Kept label registration relay =
    elim (Option-cases (held_by label relay.agents relay)) [
      | inl e ↦ rw (e, displace_held) ((refl, refl), refl)
      | inr (previous, e) ↦ rw (e, displace_held) (displace-Kept label previous registration relay)
    ]

-- What the index lists once the new holder is added to it.
added_lem :
    (label l account : Text) (registration : Registration) (found at : Option Registration)
    (index : Index)
    → (text_beq label l ≡ true → at ≡ found)
    → listed account l index ≡ is_of account at
    → listed account l
        (add_to registration.account_id label (displaced_labels label registration found index))
      ≡ is_of account (if text_beq label l then some registration else at)
unfolding is_of
added_lem label l account registration none at index f h =
    ground
      (arith, listed-add_to registration.account_id account l label index, text_beq_iff label l)
added_lem label l account registration (some previous) at index f h = ground (
  arith,
  listed-add_to registration.account_id account l label
      (displaced_labels label registration (some previous) index),
  listed-remove_from previous.account_id account l label index,
  text_beq_iff label l,
  text_beq_iff previous.account_id registration.account_id,
)

-- Installing a registration under a label keeps the account index exact, whoever held the label.
pub install_registration-IsCoherent :
    (label : Text) (r : ℕ) (registration : Registration) (relay : Relay)
    → registration_at r relay ≡ some registration
    → IsCoherent relay
    → IsCoherent (install_registration label r registration relay)
unfolding install_registration holds held_by registration_at
install_registration-IsCoherent label r registration relay e h account l =
    let kept = displace_held-Kept label registration relay in
    rw (kept.1, kept.0.0, kept.0.1, at_label-put label l r relay.agents relay.registrations, e)
      (added_lem label l account registration (at_label label relay.agents relay.registrations)
        (at_label l relay.agents relay.registrations) relay.account_labels
        (λ same. ground (arith, text_beq_iff label l)) (h account l))
