-- ===== src/Server/Registry/Changes.antt =====
-- Changes of the relay's registries, src/chute/server.py, other than an installation: a registration
-- rewritten in place, a label given up; and who holds what after an installation.
use chute.Prelude.{
  zero, suc, set, ap, sym, ◌∙◌, eq_of_some_eq, ◌==◌, ℕ, List, none, some, ◌≡◌, arith, refl,
  if◌then◌else◌, if_cases, get_elem?, Option-cases, inl, inr, ◌∷◌, [],
}
use chute.Prelude.Text.{Text, text_eq, text_beq}
use chute.Prelude.Dict.{get}
use chute.Server.State.{Relay, Registration, registration_at, write_registration}
use chute.Server.Registry.{held_by, deregister, install_registration, deregister_if_current}
use chute.Server.Registry.Sets.{listed}
use chute.Server.Registry.Coherent.{
  IsCoherent, holds, is_of, at_label, at_label-put, displace_held-Kept, deregister-IsCoherent,
}
use chute.Server.Accounts.{is_pending_for}

pub is_of-set :
    (account : Text) (registrations : List Registration) (r q : ℕ) (old new : Registration)
    → get_elem? registrations r ≡ some old
    → new.account_id ≡ old.account_id
    → is_of account (get_elem? (set registrations r new) q)
      ≡ is_of account (get_elem? registrations q)
unfolding is_of
is_of-set account [] r q old new e h = refl
is_of-set account (x ∷ xs) zero zero old new e h =
    ap (λ a. text_beq a account) (h ∙ ap (λ o. o.account_id) (sym (eq_of_some_eq e)))
is_of-set account (x ∷ xs) zero (suc q) old new e h = refl
is_of-set account (x ∷ xs) (suc r) zero old new e h = refl
is_of-set account (x ∷ xs) (suc r) (suc q) old new e h = is_of-set account xs r q old new e h

-- Whose a pending registration is.
pub is_pending_for_lem :
    (relay : Relay) (account l : Text) (r : ℕ)
    → is_pending_for relay account (l, r) ≡ is_of account (get_elem? relay.registrations r)
unfolding is_pending_for registration_at is_of
is_pending_for_lem relay account l r = ground arith

is_of-at_label-set :
    (account label : Text) (agents : List (Text × ℕ)) (registrations : List Registration) (r : ℕ)
    (old new : Registration)
    → get_elem? registrations r ≡ some old
    → new.account_id ≡ old.account_id
    → is_of account (at_label label agents (set registrations r new))
      ≡ is_of account (at_label label agents registrations)
is_of-at_label-set account label agents registrations r old new e h =
    elim (get label agents)
      as (λ found.
        is_of account (elim found [ none ↦ none | some q ↦ get_elem? (set registrations r new) q ])
        ≡ is_of account (elim found [ none ↦ none | some q ↦ get_elem? registrations q ])) [
          | none ↦ refl
          | some q ↦ is_of-set account registrations r q old new e h
        ]

-- Changing a registration in place, but for its account, keeps the account index exact.
pub write_registration-IsCoherent :
    (r : ℕ) (old new : Registration) (relay : Relay)
    → registration_at r relay ≡ some old
    → new.account_id ≡ old.account_id
    → IsCoherent relay
    → IsCoherent (write_registration r new relay)
unfolding write_registration holds held_by registration_at
write_registration-IsCoherent r old new relay e same h account label =
    h account label
    ∙ sym (is_of-at_label-set account label relay.agents relay.registrations r old new e same)

-- Deregistering a label, whichever mux it is for, keeps the account index exact.
pub deregister_if_current-IsCoherent :
    (label : Text) (mux : ℕ) (relay : Relay)
    → IsCoherent relay
    → IsCoherent (deregister_if_current label mux relay)
unfolding deregister_if_current listed holds
deregister_if_current-IsCoherent label mux relay h =
    elim (Option-cases (held_by label relay.agents relay)) [
      | inl e ↦ rw (e, deregister_if_current) h
      | inr (current, e) ↦
          rw (e, deregister_if_current)
            (if_cases IsCoherent (current.mux == mux) (deregister label current relay) relay
              (λ is. deregister-IsCoherent label current relay e h) (λ no. h))
    ]

-- Who holds what once a registration is installed.
pub holds-install_registration :
    (label l account : Text) (r : ℕ) (registration : Registration) (relay : Relay)
    → registration_at r relay ≡ some registration
    → holds account l (install_registration label r registration relay) ≡ (
        if text_beq label l
        then text_beq registration.account_id account
        else holds account l relay)
unfolding install_registration holds held_by registration_at is_of
holds-install_registration label l account r registration relay e =
    let kept = displace_held-Kept label registration relay in
    rw (kept.0.0, kept.0.1, at_label-put label l r relay.agents relay.registrations, e)
      (ground arith)
