-- ===== src/Tests/Control.antt =====
-- Policies, renewals and request heads: src/chute/control.py and src/chute/server.py.
use chute.Prelude.{
  ℕ, List, Bool, Option, none, some, true, false, [], ◌∷◌, ◌++◌, ◌≡◌, ◌≤◌, ◌<◌, ◌+◌, ◌⊎◌, inl, inr,
  arith, refl,
}
use chute.Prelude.Text.{Text, Bytes, codes, text_beq}
use chute.Server.State.{Registration, aware}
use chute.Server.Policy.{
  PolicyUpdate, apply_policy_update, valid_policy_update, see_lease_ids, valid_revocations,
  valid_account_budgets,
}
use chute.Control.{
  Plane, PrivateTextFile, StaticPolicy, StaticCredential, LeaseState, renew_as, renew_at,
}
use chute.Tests.Server.{alice_relay, alice_relay-IsCoherent, alice, no_budget}
use chute.Server.Claims.{TunnelLease}
use chute.Control.Json.{success}
use chute.Control.{expires_in, max_datetime}
use chute.Control.Renewal.{
  renewal_request, IsKept, load_policy-IsKept, IsAcceptable, renew_lease-IsAcceptable,
}
use chute.Control.Policies.{renew_lease, load_policy, renew_known, renew_loaded}
use chute.Server.Host.{
  label_from_host, host_from_head, label_under, parse_request_head, before_suffix, parse_lines,
  rstrip_dots,
}
use chute.Server.Head.{ok, has_bare}
use chute.Server.Host.Lines.{HasCleanLines}
use chute.Server.Policy.Budgets.{AreSet}
use chute.Server.Policy.Versions.{apply_policy_update_cases}
use chute.Server.Host.Labels.{IsRoutable, host_from_head-IsRoutable, label_from_host_lem}
use chute.Server.Registry.{mem}
use chute.Server.Claims.{lower_char, lower}
use chute.Names.{valid_label}
use chute.Server.Registry.Coherent.{IsCoherent}
use chute.Server.Policy.Coherent.{apply_policy_update-IsCoherent}
use chute.Control.Json.{Loaded, Json, value_error}

abbrev update_4 : PolicyUpdate
update_4 = record {
  version = 4;
  revoke_lease_ids = codes "lease" ∷ [];
  lease_revocations = [];
  account_budgets = [];
}

-- The same update with a budget for Alice, who has a tunnel until its lease is revoked.
abbrev budget_update : PolicyUpdate
budget_update = record update_4 {
  account_budgets = record { account_id = codes "alice"; budget = no_budget } ∷ [];
}

apply_policy_update_example :
    ((apply_policy_update budget_update alice_relay).1 ≡ true
      × (alice_relay.policy_version < budget_update.version)
      × ((apply_policy_update budget_update alice_relay).0.policy_version ≡ budget_update.version)
      × AreSet (apply_policy_update budget_update alice_relay).0 budget_update.account_budgets)
    ⊎ ((apply_policy_update budget_update alice_relay).1 ≡ false
        × ((apply_policy_update budget_update alice_relay).0 ≡ record alice_relay {
          policy_updates_rejected = alice_relay.policy_updates_rejected + 1;
        }))
apply_policy_update_example = apply_policy_update_cases budget_update alice_relay

valid_run : valid_policy_update update_4 3 ≡ true
unfolding valid_policy_update see_lease_ids valid_revocations valid_account_budgets mem
valid_run = refl

abbrev credential : StaticCredential
credential = record {
  credential_id = codes "c1";
  token_sha256 = codes "hashed";
  account_id = codes "alice";
  max_tunnels = 2;
  allowed_label = none;
  budget = no_budget;
  lease_seconds = some 30;
}

abbrev one_credential : StaticPolicy
one_credential = record { credentials = credential ∷ []; policy_update = some update_4 }

abbrev plane : Plane
plane = record {
  leases =
      (
        codes "lease",
        record {
          account_id = codes "alice";
          credential_id = codes "c1";
          token_sha256 = codes "hashed";
          lease_seconds = 30;
        },
      )
      ∷ [];
  policy = some one_credential;
  policy_fingerprint = some (1 ∷ []);
  bad_policy_fingerprint = none;
}

abbrev identity : Text → Text
identity t = t

-- A library that finds no text to be JSON.
abbrev never : Text → Loaded Json
never t = value_error

abbrev changed_file : Loaded PrivateTextFile
changed_file = success (record { fingerprint = 2 ∷ []; text = codes "{" })

load_policy-IsKept_example :
    IsKept identity never changed_file one_credential
      (load_policy identity never changed_file plane)
load_policy-IsKept_example =
    load_policy-IsKept identity never changed_file plane one_credential refl

abbrev held : Registration
held = record alice { credential_id = some (codes "c1"); lease_expires_at = some (aware 100) }

abbrev renewed : TunnelLease
renewed = record {
  lease_id = codes "lease";
  account_id = codes "alice";
  credential_id = some (codes "c1");
  expires_at = some (aware 120);
  generation = 1;
}

-- The file cannot be read, the last good policy stands, and the relay looks at the lease later.
renew_lease-IsAcceptable_example : IsAcceptable 90 119 held plane (some renewed)
unfolding renew_lease renew_known renew_loaded renew_as renew_at load_policy chute.Prelude.Dict.get
    text_beq renewal_request chute.Server.Claims.option_beq expires_in
    chute.Control.Policies.keep_last_good chute.Control.Policies.keep chute.Control.find_credential
    chute.Control.matches_state chute.Prelude.Dict.put chute.Control.lease_state
renew_lease-IsAcceptable_example =
    renew_lease-IsAcceptable identity never 90 119 (codes "lease") held value_error plane plane
      (some renewed) refl refl

-- A lease that would expire after the year 9999 cannot be given.
expires_in_run : expires_in 30 max_datetime ≡ none
unfolding expires_in
expires_in_run = refl

abbrev any_literal : Text → Bool
any_literal literal = true

label_from_host_example :
    (rstrip_dots (lower (codes "App.Example.com.")) ≡ codes "app" ++ (46 ∷ codes "example.com"))
    × (valid_label (codes "app") ≡ true)
unfolding label_from_host label_under before_suffix rstrip_dots lower_char valid_label text_beq
    chute.Names.is_alnum chute.Names.match_tail chute.Names.is_label_char
label_from_host_example =
    label_from_host_lem (codes "example.com") (codes "App.Example.com.") (codes "app") refl

abbrev get_head : Bytes
get_head =
    codes "GET / HTTP/1.1"
    ++ (13 ∷ 10 ∷ codes "Host: App.example.com:80" ++ (13 ∷ 10 ∷ 13 ∷ 10 ∷ []))

host_from_head_run : host_from_head any_literal get_head ≡ ok (codes "app.example.com")
unfolding host_from_head parse_request_head parse_lines chute.Server.Host.required_host has_bare
    chute.Server.Head.split_crlf chute.Server.Head.push_head chute.Server.Host.with_request_line
    chute.Server.Head.request_line chute.Server.Head.split_on chute.Server.Head.is_http_token
    chute.Server.Head.version_of text_beq chute.Server.Head.check_target
    chute.Server.Head.starts_with_byte chute.Server.Host.with_hosts chute.Server.Head.hosts_of
    chute.Server.Head.then_hosts chute.Server.Head.field_line chute.Server.Head.partition_colon
    chute.Server.Head.lstrip chute.Server.Head.rstrip chute.Server.Head.is_ows lower_char
    chute.Server.Host.one_host chute.Server.Host.then_some chute.Server.Host.validate_host
    chute.Server.Host.then_check chute.Server.Host.then_lower chute.Server.Host.strip_port
    chute.Server.Host.strip_name_port chute.Server.Host.rpartition_colon
    chute.Server.Host.check_port chute.Server.Host.is_digit chute.Server.Host.number_from
    chute.Server.Host.check_host chute.Server.Host.rootless chute.Server.Host.is_printable
    chute.Server.Head.ends_with_byte valid_label chute.Names.is_alnum chute.Names.match_tail
    chute.Names.is_label_char
host_from_head_run = refl

host_from_head-IsRoutable_example :
    HasCleanLines get_head × IsRoutable any_literal (codes "app.example.com")
host_from_head-IsRoutable_example =
    host_from_head-IsRoutable any_literal get_head (codes "app.example.com") host_from_head_run

-- The update revokes the lease of Alice's tunnel.
apply_policy_update-IsCoherent_example : IsCoherent (apply_policy_update update_4 alice_relay).0
apply_policy_update-IsCoherent_example =
    apply_policy_update-IsCoherent update_4 alice_relay alice_relay-IsCoherent
