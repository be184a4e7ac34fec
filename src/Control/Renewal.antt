-- ===== src/Control/Renewal.antt =====
-- What the static control plane of src/chute/control.py promises the relay: which leases it renews,
-- that the relay accepts them, which updates it hands out, and what a bad policy file does.
use chute.Prelude.{
  ℕ, Bool, Option, none, some, true, false, ◌≡◌, ◌<◌, ◌⊎◌, inl, inr, arith, refl, ◌∙◌, sym,
  eq_of_some_eq, subst, if_cases, not, ◌||◌,
}
use chute.Prelude.Text.{Text, text_eq, text_beq}
use chute.Server.Claims.{option_beq, valid_renewed_lease, expires_after, TunnelLease}
use chute.Server.Policy.{PolicyUpdate}
use chute.Server.State.{Registration, aware, Expiry}
use chute.Prelude.Dict.{get, get-put, put}
use chute.Prelude.Text.{text_beq_iff}
use chute.Prelude.{ap}
use chute.Prelude.{ltb, ◌+◌, Option-cases}
use chute.Control.{expires_in, lease_state}
use chute.Control.Json.{Json, Loaded, success, value_error, crash}
use chute.Control.PolicyFile.{parse_static_policy_text}
use chute.Control.{
  Plane, PrivateTextFile, StaticPolicy, LeaseRenewalRequest, newer_update, renew_at,
  StaticCredential, renew_as, LeaseState, find_credential, matches_state,
}
use chute.Control.Policies.{
  load_policy, load_snapshot, install_policy, keep_last_good, keep, load_unless_known, renew_loaded,
  renew_known, renew_lease,
}

option_beq_refl : (a : Option Text) → option_beq a a ≡ true
unfolding option_beq
option_beq_refl none = refl
option_beq_refl (some a) = ground (arith, text_eq.beq_iff a a)

-- The request that the relay sends for a registration with a lease.
unfoldable pub renewal_request : Text → Registration → LeaseRenewalRequest
renewal_request lease registration = record {
  lease_id = lease;
  account_id = registration.account_id;
  credential_id = registration.credential_id;
  generation = registration.lease_generation;
}

-- What an answer to a renewal must be for the relay to take it, at whatever time it looks: the lease
-- lasts from the plane's clock on for the seconds that the plane has then noted for it.
abbrev pub IsAcceptable : ℕ → ℕ → Registration → Plane → Option TunnelLease → Type 0
IsAcceptable now later registration after none = Unit
IsAcceptable now later registration after (some renewed) =
    (state : LeaseState) × (get renewed.lease_id after.leases ≡ some state)
    × (renewed.expires_at ≡ some (aware (now + state.lease_seconds)))
    × (registration.lease_generation < renewed.generation)
    × (valid_renewed_lease later registration renewed ≡ ltb later (now + state.lease_seconds))

abbrev pub AnswerIsAcceptable : ℕ → ℕ → Registration → Option (Plane × Option TunnelLease) → Type 0
AnswerIsAcceptable now later registration none = Unit
AnswerIsAcceptable now later registration (some (after, answer)) =
    IsAcceptable now later registration after answer

expires_in_lem :
    (seconds now : ℕ) (expiry : Expiry)
    → expires_in seconds now ≡ some expiry
    → expiry ≡ aware (now + seconds)
unfolding expires_in
expires_in_lem seconds now expiry h = ground (arith, h)

-- The lease that is answered, and what the plane notes for it.
renewed-IsAcceptable :
    (now later seconds : ℕ) (lease : Text) (registration : Registration)
    (credential : StaticCredential) (expiry : Expiry) (plane : Plane)
    → registration.lease_id ≡ some lease
    → expiry ≡ aware (now + seconds)
    → IsAcceptable now later registration
        (record plane { leases = put lease (lease_state credential seconds) plane.leases })
        (some (record {
          lease_id = lease;
          account_id = registration.account_id;
          credential_id = registration.credential_id;
          expires_at = some expiry;
          generation = registration.lease_generation + 1;
        }))
unfolding valid_renewed_lease expires_after lease_state
renewed-IsAcceptable now later seconds lease registration credential expiry plane e is = (
  lease_state credential seconds,
  ground (
    arith,
    get-put lease lease (lease_state credential seconds) plane.leases,
    text_beq_iff lease lease,
  ),
  ap some is,
  omega arith,
  rw (e, is)
      (ground (
        arith,
        option_beq_refl (some lease),
        option_beq_refl registration.credential_id,
        text_eq.beq_iff registration.account_id registration.account_id,
      )),
)

renew_at-AnswerIsAcceptable :
    (now later : ℕ) (lease : Text) (registration : Registration) (credential : StaticCredential)
    (seconds : Option ℕ) (plane : Plane)
    → registration.lease_id ≡ some lease
    → AnswerIsAcceptable now later registration
        (renew_at (renewal_request lease registration) now credential seconds plane)
unfolding renew_at renewal_request
renew_at-AnswerIsAcceptable now later lease registration credential none plane e = tt
renew_at-AnswerIsAcceptable now later lease registration credential (some s) plane e =
    elim (Option-cases (expires_in s now)) [
      | inl raised ↦ rw (raised, AnswerIsAcceptable) tt
      | inr (expiry, is) ↦
          rw (is, AnswerIsAcceptable)
            (renewed-IsAcceptable now later s lease registration credential expiry plane e
              (expires_in_lem s now expiry is))
    ]

renew_as-AnswerIsAcceptable :
    (now later : ℕ) (lease : Text) (registration : Registration) (found : Option StaticCredential)
    (plane : Plane)
    → registration.lease_id ≡ some lease
    → AnswerIsAcceptable now later registration
        (renew_as (renewal_request lease registration) now found plane)
unfolding renew_as
renew_as-AnswerIsAcceptable now later lease registration none plane e = tt
renew_as-AnswerIsAcceptable now later lease registration (some credential) plane e =
    renew_at-AnswerIsAcceptable now later lease registration credential credential.lease_seconds
      plane e

-- A poll hands out only an update that is newer than the version the relay has.
pub newer_update-lt :
    (current : ℕ) (update : Option PolicyUpdate) (u : PolicyUpdate)
    → newer_update current update ≡ some u
    → current < u.version
unfolding newer_update
newer_update-lt current none u h = cc
newer_update-lt current (some v) u h = ground arith

module _ (hash : Text → Text) (loads : Text → Loaded Json) where
  -- What a load answers while `last_good` is in place.
  abbrev pub IsKept : Loaded PrivateTextFile → StaticPolicy → Option (Plane × StaticPolicy) → Type 0
  IsKept file last_good none =
      (file ≡ crash)
      ⊎ ((snapshot : PrivateTextFile) × (file ≡ success snapshot)
          × (parse_static_policy_text loads snapshot.text ≡ crash))
  IsKept file last_good (some (after, loaded)) =
      (after.policy ≡ some loaded)
      × ((loaded ≡ last_good)
          ⊎ ((snapshot : PrivateTextFile) × (file ≡ success snapshot)
              × (parse_static_policy_text loads snapshot.text ≡ success loaded)))

  keep-IsKept :
      (file : Loaded PrivateTextFile) (last_good : StaticPolicy) (policy : Option StaticPolicy)
      (plane : Plane)
      → policy ≡ some last_good
      → plane.policy ≡ some last_good
      → IsKept file last_good (keep policy plane)
  unfolding keep
  keep-IsKept file last_good none plane h k = cc
  keep-IsKept file last_good (some p) plane h k = (k ∙ sym h, inl (eq_of_some_eq h))

  install-IsKept :
      (snapshot : PrivateTextFile) (last_good : StaticPolicy) (parsed : Loaded StaticPolicy)
      (plane : Plane)
      → parse_static_policy_text loads snapshot.text ≡ parsed
      → plane.policy ≡ some last_good
      → IsKept
          (success snapshot)
          last_good
          (install_policy hash loads snapshot.fingerprint parsed plane)
  unfolding install_policy keep_last_good
  install-IsKept snapshot last_good crash plane h k = inr (snapshot, refl, h)
  install-IsKept snapshot last_good value_error plane h k =
      keep-IsKept (success snapshot) last_good plane.policy
        (record plane { bad_policy_fingerprint = some snapshot.fingerprint }) k k
  install-IsKept snapshot last_good (success p) plane h k = (refl, inr (snapshot, refl, h))

  unless_known-IsKept :
      (snapshot : PrivateTextFile) (last_good : StaticPolicy) (policy : Option StaticPolicy)
      (known : Bool) (plane : Plane)
      → policy ≡ some last_good
      → plane.policy ≡ some last_good
      → IsKept
          (success snapshot)
          last_good
          (load_unless_known hash loads policy known snapshot plane)
  unfolding load_unless_known
  unless_known-IsKept snapshot last_good (some p) true plane h k =
      (k ∙ sym h, inl (eq_of_some_eq h))
  unless_known-IsKept snapshot last_good (some p) false plane h k =
      install-IsKept snapshot last_good (parse_static_policy_text loads snapshot.text) plane refl k
  unless_known-IsKept snapshot last_good none known plane h k = cc

  -- While a good policy has been loaded, a load answers a policy unless reading or validating the
  -- file raises an exception that is not a ValueError. The policy is the last good one or what the
  -- file parses to, and it is the one in place afterwards.
  pub load_policy-IsKept :
      (file : Loaded PrivateTextFile) (plane : Plane) (last_good : StaticPolicy)
      → plane.policy ≡ some last_good
      → IsKept file last_good (load_policy hash loads file plane)
  unfolding load_policy load_snapshot keep_last_good
  load_policy-IsKept crash plane last_good h = inl refl
  load_policy-IsKept value_error plane last_good h =
      keep-IsKept value_error last_good plane.policy plane h h
  load_policy-IsKept (success snapshot) plane last_good h =
      unless_known-IsKept snapshot last_good plane.policy _ plane h h

  loaded-IsAcceptable :
      (now later : ℕ) (lease : Text) (registration : Registration) (state : LeaseState)
      (file : Loaded PrivateTextFile) (plane : Plane)
      → registration.lease_id ≡ some lease
      → AnswerIsAcceptable now later registration
          (renew_loaded hash loads (renewal_request lease registration) now state file plane)
  unfolding renew_loaded
  loaded-IsAcceptable now later lease registration state file plane e =
      elim (load_policy hash loads file plane)
        as (λ loaded. AnswerIsAcceptable now later registration (elim loaded [
          | none ↦ none
          | some l ↦
              renew_as (renewal_request lease registration) now
                (find_credential (matches_state state) l.1.credentials) l.0
        ])) [
          | none ↦ tt
          | some l ↦ renew_as-AnswerIsAcceptable now later lease registration _ l.0 e
        ]

  known-IsAcceptable :
      (now later : ℕ) (lease : Text) (registration : Registration) (state : Option LeaseState)
      (file : Loaded PrivateTextFile) (plane : Plane)
      → registration.lease_id ≡ some lease
      → AnswerIsAcceptable now later registration
          (renew_known hash loads (renewal_request lease registration) now state file plane)
  unfolding renew_known renewal_request
  known-IsAcceptable now later lease registration none file plane e = tt
  known-IsAcceptable now later lease registration (some state) file plane e =
      if_cases (AnswerIsAcceptable now later registration)
        (not (text_beq state.account_id registration.account_id)
          || not (option_beq (some state.credential_id) registration.credential_id))
        (some (plane, none))
        (renew_loaded hash loads (renewal_request lease registration) now state file plane)
        (λ h. tt) (λ h. loaded-IsAcceptable now later lease registration state file plane e)

  -- Whatever lease the control plane answers to the relay's own request lasts from the plane's
  -- clock on for the seconds that the plane has then noted for it, its generation is above the
  -- registration's, and the relay finds it valid just until that time, whenever it looks.
  pub renew_lease-IsAcceptable :
      (now later : ℕ) (lease : Text) (registration : Registration) (file : Loaded PrivateTextFile)
      (plane after : Plane) (answer : Option TunnelLease)
      → registration.lease_id ≡ some lease
      → renew_lease hash loads (renewal_request lease registration) now file plane
        ≡ some (after, answer)
      → IsAcceptable now later registration after answer
  unfolding renew_lease
  renew_lease-IsAcceptable now later lease registration file plane after answer e h =
      subst (AnswerIsAcceptable now later registration) h
        (known-IsAcceptable now later lease registration _ file plane e)
