-- ===== src/Server/Claims.antt =====
-- Who may claim a label and which leases are valid, src/chute/server.py. The fields are of the
-- types that src/chute/auth.py declares, so the tests on types are true.
pub mod Tunnels
pub mod Limit
use chute.Prelude.{
  ℕ, zero, suc, List, Bool, Option, none, some, true, false, [], ◌∷◌, ◌+◌, ◌&&◌, not, if◌then◌else◌,
  is_empty, length, leb, ltb, map, ◌⊎◌, inr, inl, ◌-◌, ◌==◌,
}
use chute.Prelude.Text.{Text, text_eq, text_beq}
use chute.Prelude.Dict.{has}
use chute.Names.{valid_label}
use chute.Server.State.{Relay, Registration, AuthResult, Budget, Expiry, aware, naive}
use chute.Server.Accounts.{is_pending_for, valid_budget}
use chute.Server.Registry.{add, mem, labels_of, held_by}

-- `str.lower`, where it gives ASCII: from an ASCII capital, and from the Kelvin sign
unfoldable pub lower_char : ℕ → ℕ
lower_char c = if leb 65 c && leb c 90 then c + 32 else if c == 8490 then 107 else c

abbrev pub lower : Text → Text
lower = map lower_char

pub data LabelError : Type 0 where
  invalid_subdomain no_free_subdomain subdomain_not_allowed subdomain_taken subdomain_pending
        tunnel_limit :
      LabelError

-- The labels of the account's pending registrations, added to those it holds.
unfoldable pub add_pending : Relay → Text → List (Text × ℕ) → List Text → List Text
add_pending relay account [] owned = owned
add_pending relay account ((label, r) ∷ pending) owned =
    add_pending relay account pending
      (if is_pending_for relay account (label, r) then add label owned else owned)

unfoldable pub owned_labels : Text → Relay → List Text
owned_labels account relay =
    add_pending relay account relay.pending_agents (labels_of account relay.account_labels)

unfoldable pub is_allowed : Option Text → Text → Bool
is_allowed none label = true
is_allowed (some allowed) label = valid_label (lower allowed) && text_beq label (lower allowed)

-- Whether another account holds the label.
unfoldable pub is_taken : Text → Text → Relay → Bool
is_taken account label relay = elim (held_by label relay.agents relay) [
  | none ↦ false
  | some held ↦ not (text_beq held.account_id account)
]

-- `_authorize_claim`: `none` is a claim that stands.
unfoldable pub authorize_claim : AuthResult → Text → Relay → Option LabelError
authorize_claim auth label relay =
    let owned = owned_labels auth.account_id relay in
    if not (is_allowed auth.allowed_label label)
    then some subdomain_not_allowed
    else if is_taken auth.account_id label relay
    then some subdomain_taken
    else if has label relay.pending_agents
    then some subdomain_pending
    else if not (mem label owned) && leb auth.max_tunnels (length owned)
    then some tunnel_limit
    else none

-- `_assign_label`, for the phrases that `random_phrase` draws.
unfoldable pub first_free : ℕ → List Text → Relay → Option Text
first_free zero drawn relay = none
first_free (suc n) [] relay = none
first_free (suc n) (label ∷ drawn) relay =
    let rest = first_free n drawn relay in
    if not (has label relay.agents) && not (has label relay.pending_agents)
    then some label
    else rest

unfoldable pub assign_label : Option Text → List Text → Relay → LabelError ⊎ Text
assign_label (some requested) drawn relay =
    if valid_label requested then inr requested else inl invalid_subdomain
assign_label none drawn relay = elim (first_free 100 drawn relay) [
  | none ↦ inl no_free_subdomain
  | some label ↦ inr label
]

-- `TunnelLease` of src/chute/control.py
pub record TunnelLease : Type 0 where
  pub lease_id : Text
  pub account_id : Text
  pub credential_id : Option Text
  pub expires_at : Option Expiry
  pub generation : ℕ

unfoldable pub option_beq : Option Text → Option Text → Bool
option_beq none none = true
option_beq none (some b) = false
option_beq (some a) none = false
option_beq (some a) (some b) = text_beq a b

unfoldable pub expires_after : ℕ → Option Expiry → Bool
expires_after now none = false
expires_after now (some naive) = false
expires_after now (some (aware t)) = ltb now t

-- `_valid_renewed_lease`
unfoldable pub valid_renewed_lease : ℕ → Registration → TunnelLease → Bool
valid_renewed_lease now registration renewed =
    option_beq (some renewed.lease_id) registration.lease_id
    && text_beq renewed.account_id registration.account_id
    && option_beq renewed.credential_id registration.credential_id
    && leb registration.lease_generation renewed.generation
    && expires_after now renewed.expires_at

unfoldable pub is_aware : Option Expiry → Bool
is_aware none = true
is_aware (some naive) = false
is_aware (some (aware t)) = true

-- `_valid_tunnel_admission`
unfoldable pub valid_tunnel_admission : TunnelLease → Budget → Bool
valid_tunnel_admission lease budget =
    not (is_empty lease.lease_id)
    && not (is_empty lease.account_id)
    && is_aware lease.expires_at
    && valid_budget budget

-- `_lease_seconds_remaining`, `_lease_expired`: what is left is 0 when the time has passed.
unfoldable pub lease_seconds_remaining : ℕ → Registration → Option ℕ
lease_seconds_remaining now registration = elim registration.lease_expires_at [
  | none ↦ none
  | some expiry ↦ elim expiry [ naive ↦ some 0 | aware t ↦ some (t - now) ]
]

unfoldable pub lease_expired : ℕ → Registration → Bool
lease_expired now registration = elim (lease_seconds_remaining now registration) [
  | none ↦ false
  | some left ↦ leb left 0
]
