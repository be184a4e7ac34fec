-- ===== src/Control/Authorizers.antt =====
-- `StaticTokenAuthorizer` of src/chute/auth.py, and `AuthorizerControlPlane` of src/chute/control.py,
-- which asks an authorizer and grants no finite lease. A call that raises answers `none`.
use chute.Prelude.{if◌then◌else◌, []}
use chute.Control.{
  TunnelAdmission, LeaseRenewalRequest, PolicyUpdateRequest, Text, Option, none, some, TunnelLease,
  PolicyUpdate, encode_text, ◌∷◌, text_beq,
}
use chute.Server.State.{AuthResult, unlimited}
use chute.Prelude.Text.{codes}
use chute.Control.PolicyFile.{unlimited_tunnels}

-- `AuthRequest`, but for the label, scheme and version, which nothing here reads
pub record AuthRequest : Type 0 where
  pub token : Text

-- `AuthResult(account_id="0")`
abbrev pub bootstrap_result : AuthResult
bootstrap_result = record {
  account_id = codes "0";
  max_tunnels = unlimited_tunnels;
  allowed_label = none;
  budget = record {
    max_visitors = unlimited;
    max_bytes_per_sec = unlimited;
    max_reconnects_per_min = unlimited;
    max_buffered_bytes = unlimited;
  };
  credential_id = none;
}

-- `StaticTokenAuthorizer.__init__`
unfoldable pub new_static_token : Text → Option Text
new_static_token [] = none
new_static_token (c ∷ cs) = some (c ∷ cs)

unfoldable pub compare_digest : Option Text → Option Text → Option (Option AuthResult)
compare_digest none own = none
compare_digest (some given) none = none
compare_digest (some given) (some own) =
    some (if text_beq given own then some bootstrap_result else none)

-- `StaticTokenAuthorizer.authenticate`
unfoldable pub authenticate_static : Text → AuthRequest → Option (Option AuthResult)
authenticate_static own request = compare_digest (encode_text request.token) (encode_text own)

-- `TunnelAdmission.from_auth_result`, with the lease id that is drawn
unfoldable pub from_auth_result : Text → AuthResult → TunnelAdmission
from_auth_result lease auth = record {
  lease = record {
    lease_id = lease;
    account_id = auth.account_id;
    credential_id = auth.credential_id;
    expires_at = none;
    generation = 0;
  };
  max_tunnels = auth.max_tunnels;
  allowed_label = auth.allowed_label;
  budget = auth.budget;
}

-- `TunnelAdmission.to_auth_result`
unfoldable pub to_auth_result : TunnelAdmission → AuthResult
to_auth_result a = record {
  account_id = a.lease.account_id;
  max_tunnels = a.max_tunnels;
  allowed_label = a.allowed_label;
  budget = a.budget;
  credential_id = a.lease.credential_id;
}

unfoldable pub admission_of : Text → Option (Option AuthResult) → Option (Option TunnelAdmission)
admission_of lease none = none
admission_of lease (some none) = some none
admission_of lease (some (some auth)) = some (some (from_auth_result lease auth))

-- `AuthorizerControlPlane`
module _ (authenticate : AuthRequest → Option (Option AuthResult)) where
  unfoldable pub admit_by_authorizer : Text → AuthRequest → Option (Option TunnelAdmission)
  admit_by_authorizer lease request = admission_of lease (authenticate request)

unfoldable pub renew_by_authorizer : LeaseRenewalRequest → Option TunnelLease
renew_by_authorizer request = some (record {
  lease_id = request.lease_id;
  account_id = request.account_id;
  credential_id = request.credential_id;
  expires_at = none;
  generation = request.generation;
})

unfoldable pub poll_by_authorizer : PolicyUpdateRequest → Option PolicyUpdate
poll_by_authorizer request = none

-- `StaticTokenControlPlane`
unfoldable pub admit_static_token : Text → Text → AuthRequest → Option (Option TunnelAdmission)
admit_static_token own = admit_by_authorizer (authenticate_static own)
