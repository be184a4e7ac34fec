-- ===== src/Server/Revoke/Coherent.antt =====
-- Retiring and revoking, src/chute/server.py, and the account index.
use chute.Prelude.{
  ℕ, List, Bool, some, false, [], ◌∷◌, ◌≡◌, refl, inl, inr, Option-cases, if_cases, ◌+◌,
}
use chute.Prelude.Text.{Text, text_eq}
use chute.Server.State.{Relay, Registration, registration_at, Scheduled}
use chute.Server.Registry.{is_held, drop_pending_if_current, held_by, Index, unindex_lease_label}
use chute.Server.Registry.Coherent.{IsCoherent, holds}
use chute.Server.Registry.Changes.{write_registration-IsCoherent, deregister_if_current-IsCoherent}
use chute.Server.Revoke.{
  count_reason, count_pending_reason, schedule, stop_accepting, retire_registration,
  retire_pending_registration, retire_each, retire_each_pending, revoke_within, retire_at,
  retire_pending_at, by_revocation, Reason, by_expiry, by_other,
}
use chute.Prelude.Dict.{pop}

count_reason-IsCoherent :
    (reason : Reason) (relay : Relay) → IsCoherent relay → IsCoherent (count_reason reason relay)
unfolding count_reason holds held_by registration_at
count_reason-IsCoherent by_revocation relay h = h
count_reason-IsCoherent by_expiry relay h = h
count_reason-IsCoherent by_other relay h = h

count_pending_reason-IsCoherent :
    (reason : Reason) (relay : Relay)
    → IsCoherent relay
    → IsCoherent (count_pending_reason reason relay)
unfolding count_pending_reason holds held_by registration_at
count_pending_reason-IsCoherent by_revocation relay h = h
count_pending_reason-IsCoherent by_expiry relay h = h
count_pending_reason-IsCoherent by_other relay h = h

schedule-IsCoherent :
    (s : Scheduled) (relay : Relay) → IsCoherent relay → IsCoherent (schedule s relay)
unfolding schedule holds held_by registration_at
schedule-IsCoherent s relay h = h

drop_pending-IsCoherent :
    (label : Text) (r : ℕ) (registration : Registration) (relay : Relay)
    → IsCoherent relay
    → IsCoherent (drop_pending_if_current label r registration relay)
unfolding drop_pending_if_current holds held_by registration_at
drop_pending-IsCoherent label r registration relay h =
    if_cases IsCoherent (is_held label r relay.pending_agents)
      (record relay {
        pending_agents = pop label relay.pending_agents;
        pending_lease_labels = unindex_lease_label label registration relay.pending_lease_labels;
      })
      relay (λ e. h) (λ e. h)

stop_accepting-IsCoherent :
    (r : ℕ) (registration : Registration) (relay : Relay)
    → registration_at r relay ≡ some registration
    → IsCoherent relay
    → IsCoherent (stop_accepting r registration relay)
unfolding stop_accepting
stop_accepting-IsCoherent r registration relay e h =
    write_registration-IsCoherent r registration _ relay e refl h

pub retire_registration-IsCoherent :
    (label : Text) (r : ℕ) (reason : Reason) (drain_timeout : ℕ) (relay : Relay)
    → IsCoherent relay
    → IsCoherent (retire_registration label r reason drain_timeout relay)
unfolding retire_registration retire_at
retire_registration-IsCoherent label r reason drain_timeout relay h =
    if_cases IsCoherent (is_held label r relay.agents)
      (retire_at label r reason drain_timeout (registration_at r relay) relay) relay
      (λ is. elim (Option-cases (registration_at r relay)) [
        | inl e ↦ rw e h
        | inr (registration, e) ↦ rw e (
            schedule-IsCoherent _ _ (
              count_reason-IsCoherent reason _ (
                deregister_if_current-IsCoherent label registration.mux _
                  (stop_accepting-IsCoherent r registration relay e h))))
      ])
      (λ no. h)

pub retire_pending-IsCoherent :
    (label : Text) (r : ℕ) (reason : Reason) (relay : Relay)
    → IsCoherent relay
    → IsCoherent (retire_pending_registration label r reason relay).0
unfolding retire_pending_registration retire_pending_at
retire_pending-IsCoherent label r reason relay h =
    if_cases (λ (answer : Relay × Bool). IsCoherent answer.0) (is_held label r relay.pending_agents)
      (retire_pending_at label r reason (registration_at r relay) relay) (relay, false)
      (λ is. elim (Option-cases (registration_at r relay)) [
        | inl e ↦ rw e h
        | inr (registration, e) ↦ rw e (
            schedule-IsCoherent _ _ (
              count_pending_reason-IsCoherent reason _ (
                drop_pending-IsCoherent label r registration _
                  (stop_accepting-IsCoherent r registration relay e h))))
      ])
      (λ no. h)

retire_each-IsCoherent :
    (found : List (Text × ℕ)) (drain_timeout revoked : ℕ) (relay : Relay)
    → IsCoherent relay
    → IsCoherent (retire_each found drain_timeout revoked relay).0
unfolding retire_each
retire_each-IsCoherent [] drain_timeout revoked relay h = h
retire_each-IsCoherent ((label, r) ∷ found) drain_timeout revoked relay h =
    retire_each-IsCoherent found drain_timeout (revoked + 1) _
      (retire_registration-IsCoherent label r by_revocation drain_timeout relay h)

retire_each_pending-IsCoherent :
    (found : List (Text × ℕ)) (revoked : ℕ) (relay : Relay)
    → IsCoherent relay
    → IsCoherent (retire_each_pending found revoked relay).0
unfolding retire_each_pending
retire_each_pending-IsCoherent [] revoked relay h = h
retire_each_pending-IsCoherent ((label, r) ∷ found) revoked relay h =
    retire_each_pending-IsCoherent found _ _
      (retire_pending-IsCoherent label r by_revocation relay h)

lease_labels-IsCoherent :
    (index : Index) (relay : Relay)
    → IsCoherent relay
    → IsCoherent (record relay { lease_labels = index })
unfolding holds held_by registration_at
lease_labels-IsCoherent index relay h = h

pending_labels-IsCoherent :
    (index : Index) (relay : Relay)
    → IsCoherent relay
    → IsCoherent (record relay { pending_lease_labels = index })
unfolding holds held_by registration_at
pending_labels-IsCoherent index relay h = h

pub revoke_within-IsCoherent :
    (lease : Text) (drain_timeout : ℕ) (relay : Relay)
    → IsCoherent relay
    → IsCoherent (revoke_within lease drain_timeout relay).0
unfolding revoke_within
revoke_within-IsCoherent lease drain_timeout relay h = retire_each_pending-IsCoherent _ _ _ (
    pending_labels-IsCoherent _ _
      (retire_each-IsCoherent _ drain_timeout 0 _ (lease_labels-IsCoherent _ relay h)))
