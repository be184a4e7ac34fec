-- ===== src/Tests/PolicyFile.antt =====
-- A policy file with one credential and an update that revokes one lease, src/chute/control.py.
use chute.Prelude.{ℕ, List, Option, none, some, [], ◌∷◌, ◌≡◌, refl, true}
use chute.Prelude.Text.{Text, codes}
use chute.Server.State.{unlimited}
use chute.Server.Policy.{PolicyUpdate, valid_policy_update}
use chute.Control.{
  Plane, PrivateTextFile, StaticPolicy, StaticCredential, PolicyUpdateRequest, prune_for_poll,
  prune, newer_update,
}
use chute.Control.Json.{
  Json, Loaded, success, crash, Fields, object, field, string, integer, no_fields, array, item,
  no_items, null,
}
use chute.Control.Delivery.{HasTestedPolicy, poll_policy_updates-valid}
use chute.Control.PolicyFile.{
  parse_static_policy_text, reject_unknown_keys, parse_static_policy, nothing_seen, required_str,
  parse_credentials, parse_token_sha256, parse_each_credential, digest_of_str, parse_credential,
  remove_prefix, as_object, is_hex_char, as_array, optional_nonnegative_int, assert_some,
  optional_label, optional_str, label_of_str, parse_budget, limit_of, optional_positive_int,
  required_positive_int, required_int, is_new, label_taken, note_credential, note_owner,
  parse_policy_update, has_update, parse_update_fields, parse_revoke_lease_ids, each_required_str,
  parse_lease_revocations, each_lease_revocation, parse_account_budgets, each_account_budget,
  duplicates_from, unless_empty, equals_one,
}
use chute.Control.PolicyFile.Credentials.{IsConsistent, parse_static_policy_text-IsConsistent}
use chute.Control.Policies.{
  poll_policy_updates, load_policy, load_snapshot, load_unless_known, install_policy,
}
use chute.Control.PolicyFile.Fields.{parse_credential-null_tunnels}

abbrev digest : Text
digest = codes "0123456789abcdef0123456789abcdef0123456789abcdef0123456789abcdef"

abbrev credential_of : Json → Fields
credential_of tunnels = field (codes "credential_id") (string (codes "c1")) (
    field (codes "token_sha256") (string digest) (
      field (codes "account_id") (string (codes "alice"))
        (field (codes "max_tunnels") tunnels no_fields)))

abbrev file_json : Json
file_json = object (
    field (codes "schema_version") (integer 1) (
      field (codes "credentials") (array (item (object (credential_of (integer 2))) no_items)) (
        field (codes "policy_version") (integer 4) (
          field (codes "revoke_lease_ids") (array (item (string (codes "lease")) no_items))
            no_fields))))

-- A reader that finds this value in every text.
abbrev reads_file : Text → Loaded Json
reads_file t = success file_json

abbrev file_policy : StaticPolicy
file_policy = record {
  credentials =
      record {
        credential_id = codes "c1";
        token_sha256 = digest;
        account_id = codes "alice";
        max_tunnels = 2;
        allowed_label = none;
        budget = record {
          max_visitors = unlimited;
          max_bytes_per_sec = unlimited;
          max_reconnects_per_min = unlimited;
          max_buffered_bytes = unlimited;
        };
        lease_seconds = none;
      }
      ∷ [];
  policy_update = some (record {
    version = 4;
    revoke_lease_ids = codes "lease" ∷ [];
    lease_revocations = [];
    account_budgets = [];
  });
}

parse_run : parse_static_policy_text reads_file [] ≡ success file_policy
unfolding parse_static_policy_text parse_static_policy parse_credentials parse_each_credential
    parse_credential as_object as_array reject_unknown_keys required_str parse_token_sha256
    digest_of_str remove_prefix is_hex_char optional_nonnegative_int assert_some optional_label
    optional_str label_of_str parse_budget limit_of optional_positive_int required_positive_int
    required_int is_new label_taken note_credential note_owner parse_policy_update has_update
    parse_update_fields parse_revoke_lease_ids each_required_str parse_lease_revocations
    each_lease_revocation parse_account_budgets each_account_budget duplicates_from unless_empty
    equals_one chute.Prelude.Text.text_beq chute.Prelude.Dict.get chute.Prelude.Dict.has
    chute.Server.Registry.mem chute.Server.Claims.lower_char
parse_run = refl

parse_static_policy_text-IsConsistent_example : IsConsistent nothing_seen file_policy.credentials
parse_static_policy_text-IsConsistent_example =
    parse_static_policy_text-IsConsistent reads_file [] file_policy parse_run

abbrev new_plane : Plane
new_plane = record {
  leases = [];
  policy = none;
  policy_fingerprint = none;
  bad_policy_fingerprint = none;
}

new_plane-HasTestedPolicy : HasTestedPolicy new_plane
new_plane-HasTestedPolicy p e = cc

abbrev loaded_plane : Plane
loaded_plane = record new_plane { policy = some file_policy; policy_fingerprint = some (1 ∷ []) }

abbrev asks_from_3 : PolicyUpdateRequest
asks_from_3 = record {
  current_version = 3;
  active_lease_count = 1;
  active_lease_ids = codes "lease" ∷ [];
}

abbrev hash_of : Text → Text
hash_of t = t

abbrev the_file : Loaded PrivateTextFile
the_file = success (record { fingerprint = 1 ∷ []; text = [] })

poll_run :
    poll_policy_updates hash_of reads_file asks_from_3 the_file new_plane
    ≡ some (loaded_plane, file_policy.policy_update)
unfolding poll_policy_updates prune_for_poll prune load_policy load_snapshot load_unless_known
    install_policy newer_update parse_static_policy_text parse_static_policy parse_credentials
    parse_each_credential parse_credential as_object as_array reject_unknown_keys required_str
    parse_token_sha256 digest_of_str remove_prefix is_hex_char optional_nonnegative_int assert_some
    optional_label optional_str label_of_str parse_budget limit_of optional_positive_int
    required_positive_int required_int is_new label_taken note_credential note_owner
    parse_policy_update has_update parse_update_fields parse_revoke_lease_ids each_required_str
    parse_lease_revocations each_lease_revocation parse_account_budgets each_account_budget
    duplicates_from unless_empty equals_one chute.Prelude.Text.text_beq chute.Prelude.Dict.get
    chute.Prelude.Dict.has chute.Server.Registry.mem chute.Server.Claims.lower_char
    chute.Control.is_fingerprint
poll_run = refl

poll_policy_updates-valid_example :
    HasTestedPolicy loaded_plane
    × ((u : PolicyUpdate) → file_policy.policy_update ≡ some u → valid_policy_update u 3 ≡ true)
poll_policy_updates-valid_example =
    poll_policy_updates-valid hash_of reads_file asks_from_3 the_file new_plane loaded_plane
      file_policy.policy_update new_plane-HasTestedPolicy poll_run

null_tunnels_run : parse_credential (object (credential_of null)) ≡ crash
unfolding reject_unknown_keys required_str parse_token_sha256 digest_of_str remove_prefix
    is_hex_char chute.Prelude.Text.text_beq chute.Prelude.Dict.get chute.Server.Registry.mem
    chute.Server.Claims.lower_char
null_tunnels_run =
    parse_credential-null_tunnels (credential_of null) (codes "c1") digest (codes "alice") refl refl
      refl refl refl
