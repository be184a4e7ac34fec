-- ===== src/Control/Policies.antt =====
-- The operations of `StaticPolicyControlPlane`, src/chute/control.py, each of which loads the
-- policy file first; `none` is an exception;
-- what the plane holds after one is not modelled.
use chute.Prelude.{ℕ, Option, none, some, ◌||◌, not, if◌then◌else◌, Bool, true}
use chute.Prelude.Text.{Text, text_eq, text_beq}
use chute.Prelude.Dict.{get}
use chute.Server.Claims.{TunnelLease, option_beq}
use chute.Server.Policy.{PolicyUpdate}
use chute.Control.Json.{Json, Loaded, success, value_error, crash}
use chute.Control.PolicyFile.{parse_static_policy_text}
use chute.Control.{
  encode_text, Plane, PrivateTextFile, StaticPolicy, LeaseState, is_fingerprint, TunnelAdmission,
  LeaseRenewalRequest, PolicyUpdateRequest, admit_as, renew_as, prune_for_poll, find_credential,
  newer_update, matches_state, Fingerprint,
}
use mathlib.Core.Bool.{false}

unfoldable pub keep : Option StaticPolicy → Plane → Option (Plane × StaticPolicy)
keep none plane = none
keep (some last_good) plane = some (plane, last_good)

-- `_handle_policy_load_error`: the last good policy, where there is one.
unfoldable pub keep_last_good : Plane → Option (Plane × StaticPolicy)
keep_last_good plane = keep plane.policy plane

module _ (hash : Text → Text) (loads : Text → Loaded Json) where
  -- A text that raises anything but a `ValueError` leaves the plane as it was.
  unfoldable pub install_policy :
      Fingerprint → Loaded StaticPolicy → Plane → Option (Plane × StaticPolicy)
  install_policy fingerprint crash plane = none
  install_policy fingerprint value_error plane =
      keep_last_good (record plane { bad_policy_fingerprint = some fingerprint })
  install_policy fingerprint (success parsed) plane = some (
    record plane {
      policy = some parsed;
      policy_fingerprint = some fingerprint;
      bad_policy_fingerprint = none;
    },
    parsed,
  )

  unfoldable pub load_unless_known :
      Option StaticPolicy → Bool → PrivateTextFile → Plane → Option (Plane × StaticPolicy)
  load_unless_known (some last_good) true snapshot plane = some (plane, last_good)
  load_unless_known (some last_good) false snapshot plane =
      install_policy snapshot.fingerprint (parse_static_policy_text loads snapshot.text) plane
  load_unless_known none known snapshot plane =
      install_policy snapshot.fingerprint (parse_static_policy_text loads snapshot.text) plane

  -- A snapshot that has been parsed before, for good or bad, is not parsed again.
  unfoldable pub load_snapshot : PrivateTextFile → Plane → Option (Plane × StaticPolicy)
  load_snapshot snapshot plane =
      load_unless_known plane.policy
        (is_fingerprint plane.policy_fingerprint snapshot.fingerprint
          || is_fingerprint plane.bad_policy_fingerprint snapshot.fingerprint)
        snapshot plane

  -- `_load_policy`
  unfoldable pub load_policy : Loaded PrivateTextFile → Plane → Option (Plane × StaticPolicy)
  load_policy crash plane = none
  load_policy value_error plane = keep_last_good plane
  load_policy (success snapshot) plane = load_snapshot snapshot plane

  -- `token_sha256` encodes the token first.
  unfoldable pub admit_token :
      Option Text → Text → ℕ → StaticPolicy → Plane → Option (Plane × Option TunnelAdmission)
  admit_token none lease now policy plane = none
  admit_token (some token) lease now policy plane =
      admit_as lease now
        (find_credential (λ item. text_beq item.token_sha256 (hash token)) policy.credentials) plane

  -- `admit_tunnel`
  unfoldable pub admit_tunnel :
      Text → Text → ℕ → Loaded PrivateTextFile → Plane → Option (Plane × Option TunnelAdmission)
  admit_tunnel token lease now file plane = elim (load_policy file plane) [
    | none ↦ none
    | some loaded ↦ admit_token (encode_text token) lease now loaded.1 loaded.0
  ]

  unfoldable pub renew_loaded :
      LeaseRenewalRequest
      → ℕ
      → LeaseState
      → Loaded PrivateTextFile
      → Plane
      → Option (Plane × Option TunnelLease)
  renew_loaded request now state file plane = elim (load_policy file plane) [
    | none ↦ none
    | some loaded ↦
        renew_as request now (find_credential (matches_state state) loaded.1.credentials) loaded.0
  ]

  unfoldable pub renew_known :
      LeaseRenewalRequest
      → ℕ
      → Option LeaseState
      → Loaded PrivateTextFile
      → Plane
      → Option (Plane × Option TunnelLease)
  renew_known request now none file plane = some (plane, none)
  renew_known request now (some state) file plane =
      if not (text_beq state.account_id request.account_id)
        || not (option_beq (some state.credential_id) request.credential_id)
      then some (plane, none)
      else renew_loaded request now state file plane

  -- `renew_lease`
  unfoldable pub renew_lease :
      LeaseRenewalRequest → ℕ → Loaded PrivateTextFile → Plane → Option (Plane × Option TunnelLease)
  renew_lease request now file plane =
      renew_known request now (get request.lease_id plane.leases) file plane

  -- `poll_policy_updates`
  unfoldable pub poll_policy_updates :
      PolicyUpdateRequest → Loaded PrivateTextFile → Plane → Option (Plane × Option PolicyUpdate)
  poll_policy_updates request file plane = elim (load_policy file (prune_for_poll request plane)) [
    | none ↦ none
    | some loaded ↦ some (loaded.0, newer_update request.current_version loaded.1.policy_update)
  ]
