-- ===== src/Control.antt =====
-- `StaticPolicyControlPlane` of src/chute/control.py: admission, renewal and policy polls against a
-- policy file. Reading the file answers a snapshot or raises, an argument of each operation; `loads`
-- is `json.loads` and `hash` is `token_sha256`. Fresh lease ids are arguments too, and times are
-- whole seconds.
use chute.Prelude.{
  ℕ, List, Bool, Option, none, some, true, false, [], ◌∷◌, ◌+◌, ◌==◌, ◌&&◌, ◌||◌, not,
  if◌then◌else◌, is_empty, leb, ltb, all,
}
use chute.Prelude.Text.{Text, text_eq, text_beq}
use chute.Prelude.Dict.{get, put, pop}
use chute.Server.State.{Limit, Budget, Expiry, aware}
use chute.Server.Claims.{TunnelLease, option_beq}
use chute.Server.Registry.{mem}
use chute.Server.Policy.{PolicyUpdate}
pub mod Json
pub mod PolicyFile
pub mod Policies
pub mod Renewal
pub mod Delivery
pub mod Authorizers

-- `_StaticCredential`, `_StaticPolicy`, `_LeaseState`
pub record StaticCredential : Type 0 where
  pub credential_id : Text
  pub token_sha256 : Text
  pub account_id : Text
  pub max_tunnels : ℕ
  pub allowed_label : Option Text
  pub budget : Budget
  pub lease_seconds : Option ℕ

pub record StaticPolicy : Type 0 where
  pub credentials : List StaticCredential
  pub policy_update : Option PolicyUpdate

pub record LeaseState : Type 0 where
  pub account_id : Text
  pub credential_id : Text
  pub token_sha256 : Text
  pub lease_seconds : ℕ

-- `TunnelAdmission`
pub record TunnelAdmission : Type 0 where
  pub lease : TunnelLease
  pub max_tunnels : ℕ
  pub allowed_label : Option Text
  pub budget : Budget

-- `LeaseRenewalRequest`, but for the label and connection id, which nothing here reads.
pub record LeaseRenewalRequest : Type 0 where
  pub lease_id : Text
  pub account_id : Text
  pub credential_id : Option Text
  pub generation : ℕ

-- `PolicyUpdateRequest`
pub record PolicyUpdateRequest : Type 0 where
  pub current_version : ℕ
  pub active_lease_count : ℕ
  pub active_lease_ids : List Text

-- `PrivateFileFingerprint` of src/chute/_files.py: device, inode, size, time and mode
abbrev pub Fingerprint : Type 0
Fingerprint = List ℕ

-- The fields of the control plane, but for `_policy_load_error`, which only spares repeated log
-- lines.
pub record Plane : Type 0 where
  pub leases : List (Text × LeaseState)
  pub policy : Option StaticPolicy
  pub policy_fingerprint : Option Fingerprint
  pub bad_policy_fingerprint : Option Fingerprint

-- `PrivateTextFile` of src/chute/_files.py
pub record PrivateTextFile : Type 0 where
  pub fingerprint : Fingerprint
  pub text : Text

unfoldable pub is_fingerprint : Option Fingerprint → Fingerprint → Bool
is_fingerprint none f = false
is_fingerprint (some g) f = text_beq f g

-- The lease that a credential gives is finite only with `lease_seconds`.
unfoldable pub lease_state : StaticCredential → ℕ → LeaseState
lease_state credential seconds = record {
  account_id = credential.account_id;
  credential_id = credential.credential_id;
  token_sha256 = credential.token_sha256;
  lease_seconds = seconds;
}

-- `next((item for item in ... if ...), None)`
unfoldable pub find_credential :
    (StaticCredential → Bool) → List StaticCredential → Option StaticCredential
find_credential p [] = none
find_credential p (item ∷ items) =
    let rest = find_credential p items in if p item then some item else rest

unfoldable pub matches_state : LeaseState → StaticCredential → Bool
matches_state state item =
    text_beq item.credential_id state.credential_id
    && text_beq item.account_id state.account_id
    && text_beq item.token_sha256 state.token_sha256

-- The last second that a `datetime` can express.
abbrev pub max_datetime : ℕ
max_datetime = 253402300799

-- `now + timedelta(seconds=seconds)`; `none` is its `OverflowError`.
unfoldable pub expires_in : ℕ → ℕ → Option Expiry
expires_in seconds now =
    if ltb max_datetime (now + seconds) then none else some (aware (now + seconds))

unfoldable pub expiry_of : Option ℕ → ℕ → Option (Option Expiry)
expiry_of none now = some none
expiry_of (some seconds) now = elim (expires_in seconds now) [
  | none ↦ none
  | some expiry ↦ some (some expiry)
]

unfoldable pub is_surrogate : ℕ → Bool
is_surrogate c = leb 55296 c && leb c 57343

-- `str.encode`: a text with a surrogate has no encoding; others stand for their bytes, which
-- UTF-8 makes one to one.
unfoldable pub encode_text : Text → Option Text
encode_text t = if all (λ c. not (is_surrogate c)) t then some t else none

-- The entry of `_leases` for a finite lease.
unfoldable pub note_lease : Text → StaticCredential → Plane → Plane
note_lease lease credential plane = elim credential.lease_seconds [
  | none ↦ plane
  | some seconds ↦ record plane { leases = put lease (lease_state credential seconds) plane.leases }
]

unfoldable pub admission : Text → Option Expiry → StaticCredential → TunnelAdmission
admission lease expiry credential = record {
  lease = record {
    lease_id = lease;
    account_id = credential.account_id;
    credential_id = some credential.credential_id;
    expires_at = expiry;
    generation = 0;
  };
  max_tunnels = credential.max_tunnels;
  allowed_label = credential.allowed_label;
  budget = credential.budget;
}

-- The outer `none` is an exception, here and in the renewal.
unfoldable pub admit_as :
    Text → ℕ → Option StaticCredential → Plane → Option (Plane × Option TunnelAdmission)
admit_as lease now none plane = some (plane, none)
admit_as lease now (some credential) plane = elim (expiry_of credential.lease_seconds now) [
  | none ↦ none
  | some expiry ↦ some (note_lease lease credential plane, some (admission lease expiry credential))
]

-- The renewed lease, or the entry dropped.
unfoldable pub renew_at :
    LeaseRenewalRequest
    → ℕ
    → StaticCredential
    → Option ℕ
    → Plane
    → Option (Plane × Option TunnelLease)
renew_at request now credential none plane =
    some (record plane { leases = pop request.lease_id plane.leases }, none)
renew_at request now credential (some seconds) plane = elim (expires_in seconds now) [
  | none ↦ none
  | some expiry ↦ some (
    record plane { leases = put request.lease_id (lease_state credential seconds) plane.leases },
    some (record {
      lease_id = request.lease_id;
      account_id = request.account_id;
      credential_id = request.credential_id;
      expires_at = some expiry;
      generation = request.generation + 1;
    }),
  )
]

unfoldable pub renew_as :
    LeaseRenewalRequest → ℕ → Option StaticCredential → Plane → Option (Plane × Option TunnelLease)
renew_as request now none plane =
    some (record plane { leases = pop request.lease_id plane.leases }, none)
renew_as request now (some credential) plane =
    renew_at request now credential credential.lease_seconds plane

-- The loop of `_prune_inactive_leases`
unfoldable pub prune : List Text → List (Text × LeaseState) → List (Text × LeaseState)
prune active [] = []
prune active ((lease, state) ∷ leases) =
    let rest = prune active leases in if mem lease active then (lease, state) ∷ rest else rest

-- What a poll answers: an update that is newer than the relay's.
unfoldable pub newer_update : ℕ → Option PolicyUpdate → Option PolicyUpdate
newer_update current none = none
newer_update current (some update) = if leb update.version current then none else some update

unfoldable pub prune_for_poll : PolicyUpdateRequest → Plane → Plane
prune_for_poll request plane =
    if not (is_empty request.active_lease_ids) || (request.active_lease_count == 0)
    then record plane { leases = prune request.active_lease_ids plane.leases }
    else plane
