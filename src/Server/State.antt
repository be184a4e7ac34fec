-- ===== src/Server/State.antt =====
-- The state of `Server` of src/chute/server.py, and the records that it keeps: `TunnelRegistration`
-- there, `Budget` and `AuthResult` of src/chute/auth.py. Registrations are objects, compared by
-- `is`, so they live in a store and the registries hold places in it. A mux is named by a number.
use chute.Prelude.{ℕ, List, Bool, Option, get_elem?, set}
use chute.Prelude.Text.{Text}

-- An optional limit of a budget: `None`, an `int` that is not below 0, one that is (-1 - n).
pub data Limit : Type 0 where
  unlimited : Limit
  amount negative : ℕ → Limit

-- `Budget`
pub record Budget : Type 0 where
  pub max_visitors : Limit
  pub max_bytes_per_sec : Limit
  pub max_reconnects_per_min : Limit
  pub max_buffered_bytes : Limit

-- `AuthResult`
pub record AuthResult : Type 0 where
  pub account_id : Text
  pub max_tunnels : ℕ
  pub allowed_label : Option Text
  pub budget : Budget
  pub credential_id : Option Text

-- A `datetime`: with a time zone, in seconds, or without one.
pub data Expiry : Type 0 where
  aware : ℕ → Expiry
  naive : Expiry

-- `TunnelRegistration`, but for the fields that no decision here reads (`connection_id`,
-- `scheme`, `public_url`, `agent_ip`, `requested_subdomain`).
pub record Registration : Type 0 where
  pub mux : ℕ
  pub account_id : Text
  pub budget : Budget
  pub credential_id : Option Text
  pub accepting_visitors : Bool
  pub lease_id : Option Text
  pub lease_expires_at : Option Expiry
  pub lease_observed_at : Option Expiry
  pub lease_generation : ℕ

-- What the relay schedules in the background: a mux drain with its timeout, a WebSocket close.
pub data Scheduled : Type 0 where
  mux_drain : ℕ → ℕ → Scheduled
  ws_close : ℕ → ℕ → Scheduled

pub record Relay : Type 0 where
  pub registrations : List Registration
  -- `_agents`, `_pending_agents`
  pub agents : List (Text × ℕ)
  pub pending_agents : List (Text × ℕ)
  pub max_agents : ℕ
  pub account_labels : List (Text × List Text)
  pub lease_labels : List (Text × List Text)
  pub pending_lease_labels : List (Text × List Text)
  pub account_active_visitors : List (Text × ℕ)
  pub account_buffered : List (Text × ℕ)
  -- `_account_bandwidth`: when the account's next byte may go
  pub account_bandwidth : List (Text × ℕ)
  pub account_budget_overrides : List (Text × Budget)
  pub policy_version : ℕ
  pub policy_updates_applied : ℕ
  pub policy_updates_rejected : ℕ
  pub lease_revocations : ℕ
  pub lease_expirations : ℕ
  pub scheduled : List Scheduled

unfoldable pub registration_at : ℕ → Relay → Option Registration
registration_at r relay = get_elem? relay.registrations r

unfoldable pub write_registration : ℕ → Registration → Relay → Relay
write_registration r new relay = record relay { registrations = set relay.registrations r new }
