-- ===== src/Server/Revoke.antt =====
-- How a registration is retired, src/chute/server.py: `_retire_registration`,
-- `_retire_pending_registration` and `revoke_lease`, with the scan of the lease index.
pub mod Coherent
pub mod Retired
use chute.Prelude.{
  ℕ, List, Bool, Option, none, some, true, false, [], ◌∷◌, ◌++◌, ◌+◌, if◌then◌else◌, is_empty,
}
use chute.Prelude.Text.{Text, text_eq, text_beq}
use chute.Prelude.Dict.{get, put, pop}
use chute.Server.State.{
  Relay, Registration, registration_at, write_registration, Scheduled, mux_drain, ws_close,
}
use chute.Server.Registry.{Index, is_held, deregister_if_current, drop_pending_if_current}

pub data Reason : Type 0 where
  by_revocation by_expiry by_other : Reason

unfoldable pub count_reason : Reason → Relay → Relay
count_reason by_revocation relay = record relay { lease_revocations = relay.lease_revocations + 1 }
count_reason by_expiry relay = record relay { lease_expirations = relay.lease_expirations + 1 }
count_reason by_other relay = relay

-- A pending registration that is retired counts only as a revocation.
unfoldable pub count_pending_reason : Reason → Relay → Relay
count_pending_reason by_revocation relay = record relay {
  lease_revocations = relay.lease_revocations + 1;
}
count_pending_reason by_expiry relay = relay
count_pending_reason by_other relay = relay

-- `registration.accepting_visitors = False`
unfoldable pub stop_accepting : ℕ → Registration → Relay → Relay
stop_accepting r registration relay =
    write_registration r (record registration { accepting_visitors = false }) relay

unfoldable pub schedule : Scheduled → Relay → Relay
schedule s relay = record relay { scheduled = relay.scheduled ++ (s ∷ []) }

unfoldable pub retire_at : Text → ℕ → Reason → ℕ → Option Registration → Relay → Relay
retire_at label r reason drain_timeout none relay = relay
retire_at label r reason drain_timeout (some registration) relay =
    schedule (mux_drain registration.mux drain_timeout) (
      count_reason reason
        (deregister_if_current label registration.mux (stop_accepting r registration relay)))

-- `_retire_registration`, of the registration at place `r`
unfoldable pub retire_registration : Text → ℕ → Reason → ℕ → Relay → Relay
retire_registration label r reason drain_timeout relay =
    if is_held label r relay.agents
    then retire_at label r reason drain_timeout (registration_at r relay) relay
    else relay

unfoldable pub retire_pending_at : Text → ℕ → Reason → Option Registration → Relay → Relay × Bool
retire_pending_at label r reason none relay = (relay, false)
retire_pending_at label r reason (some registration) relay = (
  schedule (ws_close registration.mux 1013) (
      count_pending_reason reason
        (drop_pending_if_current label r registration (stop_accepting r registration relay))),
  true,
)

-- `_retire_pending_registration`
unfoldable pub retire_pending_registration : Text → ℕ → Reason → Relay → Relay × Bool
retire_pending_registration label r reason relay =
    if is_held label r relay.pending_agents
    then retire_pending_at label r reason (registration_at r relay) relay
    else (relay, false)

unfoldable pub lease_beq : Option Text → Text → Bool
lease_beq none lease = false
lease_beq (some l) lease = text_beq l lease

-- The entries of a registry whose registration has the lease.
unfoldable pub has_lease : Text → Relay → ℕ → Bool
has_lease lease relay r = elim (registration_at r relay) [
  | none ↦ false
  | some registration ↦ lease_beq registration.lease_id lease
]

unfoldable pub entries_with_lease : Text → Relay → List (Text × ℕ) → List (Text × ℕ)
entries_with_lease lease relay [] = []
entries_with_lease lease relay ((label, r) ∷ agents) =
    let rest = entries_with_lease lease relay agents in
    if has_lease lease relay r then (label, r) ∷ rest else rest

-- The place that `label` holds, when its registration has the lease: otherwise the label is stale.
unfoldable pub candidate : Text → Relay → List (Text × ℕ) → Text → Option ℕ
candidate lease relay agents label = elim (get label agents) [
  | none ↦ none
  | some r ↦ if has_lease lease relay r then some r else none
]

unfoldable pub candidates : Text → Relay → List (Text × ℕ) → List Text → List (Text × ℕ)
candidates lease relay agents [] = []
candidates lease relay agents (label ∷ labels) =
    let rest = candidates lease relay agents labels in
    elim (candidate lease relay agents label) [ none ↦ rest | some r ↦ (label, r) ∷ rest ]

unfoldable pub live_labels : Text → Relay → List (Text × ℕ) → List Text → List Text
live_labels lease relay agents [] = []
live_labels lease relay agents (label ∷ labels) =
    let rest = live_labels lease relay agents labels in
    elim (candidate lease relay agents label) [ none ↦ rest | some r ↦ label ∷ rest ]

-- `_registrations_for_lease_index`: the index without its stale labels, and the candidates.
unfoldable pub registrations_for_lease :
    Text → Relay → List (Text × ℕ) → Index → Index × List (Text × ℕ)
registrations_for_lease lease relay agents index = elim (get lease index) [
  | none ↦ (index, entries_with_lease lease relay agents)
  | some labels ↦ (
    let left = live_labels lease relay agents labels in
        if is_empty left then pop lease index else put lease left index,
    candidates lease relay agents labels,
  )
]

unfoldable pub retire_each : List (Text × ℕ) → ℕ → ℕ → Relay → Relay × ℕ
retire_each [] drain_timeout revoked relay = (relay, revoked)
retire_each ((label, r) ∷ found) drain_timeout revoked relay =
    retire_each found drain_timeout (revoked + 1)
      (retire_registration label r by_revocation drain_timeout relay)

unfoldable pub retire_each_pending : List (Text × ℕ) → ℕ → Relay → Relay × ℕ
retire_each_pending [] revoked relay = (relay, revoked)
retire_each_pending ((label, r) ∷ found) revoked relay =
    let (after, retired) = retire_pending_registration label r by_revocation relay in
    retire_each_pending found (if retired then revoked + 1 else revoked) after

pub data Action : Type 0 where
  drain close other : Action

unfoldable pub revoke_within : Text → ℕ → Relay → Relay × ℕ
revoke_within lease drain_timeout relay =
    let (index, found) = registrations_for_lease lease relay relay.agents relay.lease_labels in
    let scanned = record relay { lease_labels = index } in
    let (retired, revoked) = retire_each found drain_timeout 0 scanned in
    let (pending_index, pending) =
      registrations_for_lease lease retired retired.pending_agents retired.pending_lease_labels in
    retire_each_pending pending revoked (record retired { pending_lease_labels = pending_index })

-- `revoke_lease`: `none` is the `ValueError` of an action that is neither drain nor close.
unfoldable pub revoke_lease : Text → ℕ → Action → Relay → Option (Relay × ℕ)
revoke_lease lease drain_timeout drain relay =
    if is_empty lease then some (relay, 0) else some (revoke_within lease drain_timeout relay)
revoke_lease lease drain_timeout close relay =
    if is_empty lease then some (relay, 0) else some (revoke_within lease 0 relay)
revoke_lease lease drain_timeout other relay = none
