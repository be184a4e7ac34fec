-- ===== src/Server/Revoke/Retired.antt =====
-- The registry after a registration is retired, src/chute/server.py.
use chute.Prelude.{
  ℕ, List, none, some, true, false, ◌≡◌, refl, ◌∙◌, ap, arith, get_elem?-set_self, lt-length_of_get,
  ==_iff,
}
use chute.Prelude.Text.{Text, text_eq, text_beq_iff}
use chute.Prelude.Dict.{get, pop, get-pop}
use chute.Server.State.{Relay, Registration, registration_at, write_registration}
use chute.Server.Registry.{is_held, deregister_if_current, deregister, held_by}
use chute.Server.Registry.Coherent.{drop_bandwidth_if_idle-Kept}
use chute.Server.Revoke.{
  count_reason, stop_accepting, retire_registration, Reason, retire_at, by_revocation, schedule,
  by_expiry, by_other,
}

agents-deregister :
    (label : Text) (current : Registration) (relay : Relay)
    → (deregister label current relay).agents ≡ pop label relay.agents
unfolding deregister
agents-deregister label current relay = (drop_bandwidth_if_idle-Kept current.account_id _).0.0

agents-deregister_if_current :
    (label : Text) (current : Registration) (relay : Relay)
    → held_by label relay.agents relay ≡ some current
    → (deregister_if_current label current.mux relay).agents ≡ pop label relay.agents
unfolding deregister_if_current
agents-deregister_if_current label current relay e =
    rw (e, deregister_if_current)
      (ground (arith, agents-deregister label current relay, ==_iff current.mux current.mux))

agents-count_reason :
    (reason : Reason) (relay : Relay) → (count_reason reason relay).agents ≡ relay.agents
unfolding count_reason
agents-count_reason by_revocation relay = refl
agents-count_reason by_expiry relay = refl
agents-count_reason by_other relay = refl

held_by-stop_accepting :
    (label : Text) (r : ℕ) (registration : Registration) (relay : Relay)
    → get label relay.agents ≡ some r
    → registration_at r relay ≡ some registration
    → held_by label
        (stop_accepting r registration relay).agents
        (stop_accepting r registration relay)
      ≡ some (record registration { accepting_visitors = false })
unfolding held_by stop_accepting write_registration registration_at
held_by-stop_accepting label r registration relay e f =
    rw (e, held_by)
      (get_elem?-set_self relay.registrations r _ (lt-length_of_get relay.registrations r f))

get_of_is_held :
    (label : Text) (r : ℕ) (agents : List (Text × ℕ))
    → is_held label r agents ≡ true
    → get label agents ≡ some r
unfolding is_held
get_of_is_held label r agents h = ground arith

-- Retiring the registration that holds a label frees the label.
pub get-retire_registration :
    (label : Text) (r : ℕ) (reason : Reason) (drain_timeout : ℕ) (registration : Registration)
    (relay : Relay)
    → is_held label r relay.agents ≡ true
    → registration_at r relay ≡ some registration
    → get label (retire_registration label r reason drain_timeout relay).agents ≡ none
unfolding retire_registration retire_at schedule
get-retire_registration label r reason drain_timeout registration relay h e =
    let stopped = stop_accepting r registration relay in
    rw (h, e)
      (ap (λ agents. get label agents)
          (agents-count_reason reason (deregister_if_current label registration.mux stopped)
            ∙ agents-deregister_if_current label
                (record registration { accepting_visitors = false }) stopped
                (held_by-stop_accepting label r registration relay
                  (get_of_is_held label r relay.agents h) e))
        ∙ get-pop label label stopped.agents
        ∙ ground (arith, text_beq_iff label label))
