-- ===== src/Control/PolicyFile.antt =====
-- The validation of a policy file, src/chute/control.py from `_parse_static_policy_text` on. `loads`
-- is `json.loads`. The messages of the errors are left out.
pub mod Fields
pub mod Accepted
pub mod Tested
pub mod Credentials
use chute.Prelude.{
  ℕ, suc, List, Bool, Option, none, some, false, [], ◌∷◌, ◌++◌, ◌^◌, ◌==◌, ◌&&◌, ◌||◌, not, map,
  if◌then◌else◌, is_empty, length, leb, all, drop, take,
}
use chute.Prelude.Text.{Text, codes, text_eq, text_beq}
use chute.Prelude.Dict.{get, put, has}
use chute.Names.{valid_label}
use chute.Server.State.{unlimited, amount, Limit, Budget}
use chute.Server.Claims.{lower}
use chute.Server.Registry.{mem}
use chute.Server.Revoke.{drain, close, Action}
use chute.Server.Policy.{PolicyUpdate, LeaseRevocation, AccountBudgetUpdate}
use chute.Control.{StaticPolicy, StaticCredential}
use chute.Control.Json.{
  Json, Loaded, ◌>>=◌, ◌>>◌, check, field_of, field_or, item_list, field_list, success, value_error,
  crash, object, array, string, null, integer, real, boolean, no_items, no_fields,
}
use chute.Mux.Limits.{integer, boolean}

abbrev pub policy_schema_version : ℕ
policy_schema_version = 1

abbrev pub max_policy_credentials : ℕ
max_policy_credentials = 4096

abbrev pub max_policy_revoke_lease_ids : ℕ
max_policy_revoke_lease_ids = 10000

abbrev pub max_policy_lease_revocations : ℕ
max_policy_lease_revocations = 10000

abbrev pub max_policy_account_budgets : ℕ
max_policy_account_budgets = 4096

-- `UNLIMITED_TUNNELS` of src/chute/auth.py
abbrev pub unlimited_tunnels : ℕ
unlimited_tunnels = 2 ^ 62

unfoldable pub as_object : Json → Loaded (List (Text × Json))
as_object (object fields) = success (field_list fields)
as_object _ = value_error

unfoldable pub as_array : Json → Loaded (List Json)
as_array (array items) = success (item_list items)
as_array _ = value_error

-- `_reject_unknown_keys`
unfoldable pub reject_unknown_keys : List (Text × Json) → List Text → Loaded (Unit {0})
reject_unknown_keys fields allowed = check (all (λ entry. mem entry.0 allowed) fields)

unfoldable pub required_str : Json → Loaded Text
required_str (string (c ∷ cs)) = success (c ∷ cs)
required_str _ = value_error

unfoldable pub optional_str : Json → Loaded (Option Text)
optional_str null = success none
optional_str (string s) = required_str (string s) >>= λ t. success (some t)
optional_str _ = value_error

unfoldable pub label_of_str : Option Text → Loaded (Option Text)
label_of_str none = success none
label_of_str (some value) = do check (valid_label (lower value)); success (some (lower value))

-- `_optional_label`
unfoldable pub optional_label : Json → Loaded (Option Text)
optional_label raw = optional_str raw >>= label_of_str

unfoldable pub is_hex_char : ℕ → Bool
is_hex_char c = (leb 48 c && leb c 57) || (leb 97 c && leb c 102)

-- `value.removeprefix("sha256:")`
unfoldable pub remove_prefix : Text → Text → Text
remove_prefix [] value = value
remove_prefix (p ∷ ps) value =
    if text_beq (take (length (p ∷ ps)) value) (p ∷ ps) then drop (length (p ∷ ps)) value else value

unfoldable pub digest_of_str : Text → Loaded Text
digest_of_str value =
    let digest = lower (remove_prefix (codes "sha256:") value) in
    do check ((length digest == 64) && all is_hex_char digest); success digest

-- `_parse_token_sha256`
unfoldable pub parse_token_sha256 : Json → Loaded Text
parse_token_sha256 raw = required_str raw >>= digest_of_str

unfoldable pub optional_nonnegative_int : Json → Loaded (Option ℕ)
optional_nonnegative_int null = success none
optional_nonnegative_int (integer n) = success (some n)
optional_nonnegative_int _ = value_error

unfoldable pub optional_positive_int : Json → Loaded (Option ℕ)
optional_positive_int null = success none
optional_positive_int (integer (suc n)) = success (some (suc n))
optional_positive_int _ = value_error

unfoldable pub required_int : Option ℕ → Loaded ℕ
required_int none = value_error
required_int (some n) = success n

unfoldable pub required_positive_int : Json → Loaded ℕ
required_positive_int raw = optional_positive_int raw >>= required_int

unfoldable pub limit_of : Option ℕ → Limit
limit_of none = unlimited
limit_of (some n) = amount n

-- `_BUDGET_FIELDS`
abbrev pub budget_fields : List Text
budget_fields =
    codes "max_visitors"
    ∷ codes "max_bytes_per_sec"
    ∷ codes "max_reconnects_per_min"
    ∷ codes "max_buffered_bytes"
    ∷ []

-- `_parse_budget`
unfoldable pub parse_budget : Json → Loaded Budget
parse_budget raw = do
  fields ← as_object raw
  reject_unknown_keys fields budget_fields
  visitors ← optional_nonnegative_int (field_of (codes "max_visitors") fields)
  bytes ← optional_nonnegative_int (field_of (codes "max_bytes_per_sec") fields)
  reconnects ← optional_nonnegative_int (field_of (codes "max_reconnects_per_min") fields)
  buffered ← optional_nonnegative_int (field_of (codes "max_buffered_bytes") fields)
  success (record {
    max_visitors = limit_of visitors;
    max_bytes_per_sec = limit_of bytes;
    max_reconnects_per_min = limit_of reconnects;
    max_buffered_bytes = limit_of buffered;
  })

abbrev pub credential_fields : List Text
credential_fields =
    codes "credential_id"
    ∷ codes "token_sha256"
    ∷ codes "account_id"
    ∷ codes "max_tunnels"
    ∷ codes "allowed_label"
    ∷ codes "budget"
    ∷ codes "lease_seconds"
    ∷ []

-- `assert max_tunnels is not None`
unfoldable pub assert_some : Option ℕ → Loaded ℕ
assert_some none = crash
assert_some (some n) = success n

-- One item of `_parse_credentials`, up to the tests against the items before it.
unfoldable pub parse_credential : Json → Loaded StaticCredential
parse_credential raw = do
  fields ← as_object raw
  reject_unknown_keys fields credential_fields
  identity ← required_str (field_of (codes "credential_id") fields)
  digest ← parse_token_sha256 (field_of (codes "token_sha256") fields)
  account ← required_str (field_of (codes "account_id") fields)
  tunnels ←
      optional_nonnegative_int (field_or (codes "max_tunnels") (integer unlimited_tunnels) fields)
  count ← assert_some tunnels
  label ← optional_label (field_of (codes "allowed_label") fields)
  allowance ← parse_budget (field_or (codes "budget") (object no_fields) fields)
  seconds ← optional_positive_int (field_of (codes "lease_seconds") fields)
  success (record {
    credential_id = identity;
    token_sha256 = digest;
    account_id = account;
    max_tunnels = count;
    allowed_label = label;
    budget = allowance;
    lease_seconds = seconds;
  })

-- The sets of `_parse_credentials`: the ids, the hashes and the owners of labels of the items before.
pub record Seen : Type 0 where
  pub ids : List Text
  pub hashes : List Text
  pub label_owners : List (Text × Text)

unfoldable pub owned_by_other : Text → Option Text → Bool
owned_by_other account none = false
owned_by_other account (some owner) = not (text_beq owner account)

unfoldable pub label_taken : Text → Option Text → List (Text × Text) → Bool
label_taken account none owners = false
label_taken account (some label) owners = owned_by_other account (get label owners)

unfoldable pub note_owner : Text → Option Text → List (Text × Text) → List (Text × Text)
note_owner account none owners = owners
note_owner account (some label) owners = put label account owners

unfoldable pub note_credential : StaticCredential → Seen → Seen
note_credential c seen = record {
  ids = c.credential_id ∷ seen.ids;
  hashes = c.token_sha256 ∷ seen.hashes;
  label_owners = note_owner c.account_id c.allowed_label seen.label_owners;
}

-- Whether the item may follow those before it.
unfoldable pub is_new : StaticCredential → Seen → Bool
is_new c seen =
    not (mem c.credential_id seen.ids)
    && not (mem c.token_sha256 seen.hashes)
    && not (label_taken c.account_id c.allowed_label seen.label_owners)

-- The loop of `_parse_credentials`
unfoldable pub parse_each_credential : List Json → Seen → Loaded (List StaticCredential)
parse_each_credential [] seen = success []
parse_each_credential (raw ∷ raws) seen = do
  c ← parse_credential raw
  check (is_new c seen)
  rest ← parse_each_credential raws (note_credential c seen)
  success (c ∷ rest)

abbrev pub nothing_seen : Seen
nothing_seen = record { ids = []; hashes = []; label_owners = [] }

-- `_parse_credentials`
unfoldable pub parse_credentials : Json → Loaded (List StaticCredential)
parse_credentials raw = do
  items ← as_array raw
  check (not (is_empty items))
  check (leb (length items) max_policy_credentials)
  parse_each_credential items nothing_seen

-- `_duplicates`, from the values seen and the duplicates found
unfoldable pub duplicates_from : List Text → List Text → List Text → List Text
duplicates_from [] seen found = found
duplicates_from (v ∷ vs) seen found =
    duplicates_from vs (v ∷ seen)
      (if mem v seen && not (mem v found) then found ++ (v ∷ []) else found)

abbrev pub duplicates : List Text → List Text
duplicates values = duplicates_from values [] []

unfoldable pub each_required_str : List Json → Loaded (List Text)
each_required_str [] = success []
each_required_str (raw ∷ raws) = do
  value ← required_str raw
  rest ← each_required_str raws
  success (value ∷ rest)

-- `_parse_revoke_lease_ids`
unfoldable pub parse_revoke_lease_ids : Json → Loaded (List Text)
parse_revoke_lease_ids raw = do
  items ← as_array raw
  check (leb (length items) max_policy_revoke_lease_ids)
  leases ← each_required_str items
  check (is_empty (duplicates leases))
  success leases

-- `action not in ("drain", "close")`
unfoldable pub action_of_str : Text → Loaded Action
action_of_str s =
    if text_beq s (codes "drain")
    then success drain
    else if text_beq s (codes "close")
    then success close
    else value_error

unfoldable pub parse_action : Json → Loaded Action
parse_action (string s) = action_of_str s
parse_action _ = value_error

unfoldable pub parse_lease_revocation : Json → Loaded LeaseRevocation
parse_lease_revocation raw = do
  fields ← as_object raw
  reject_unknown_keys fields (codes "lease_id" ∷ codes "action" ∷ [])
  lease ← required_str (field_of (codes "lease_id") fields)
  act ← parse_action (field_or (codes "action") (string (codes "drain")) fields)
  success (record { lease_id = lease; action = act })

unfoldable pub each_lease_revocation : List Json → Loaded (List LeaseRevocation)
each_lease_revocation [] = success []
each_lease_revocation (raw ∷ raws) = do
  revocation ← parse_lease_revocation raw
  rest ← each_lease_revocation raws
  success (revocation ∷ rest)

abbrev pub revoked_ids : List LeaseRevocation → List Text
revoked_ids = map (λ r. r.lease_id)

-- `_parse_lease_revocations`
unfoldable pub parse_lease_revocations : Json → Loaded (List LeaseRevocation)
parse_lease_revocations raw = do
  items ← as_array raw
  check (leb (length items) max_policy_lease_revocations)
  revocations ← each_lease_revocation items
  check (is_empty (duplicates (revoked_ids revocations)))
  success revocations

unfoldable pub parse_account_budget : Json → Loaded AccountBudgetUpdate
parse_account_budget raw = do
  fields ← as_object raw
  reject_unknown_keys fields (codes "account_id" ∷ codes "budget" ∷ [])
  account ← required_str (field_of (codes "account_id") fields)
  allowance ← parse_budget (field_or (codes "budget") (object no_fields) fields)
  success (record { account_id = account; budget = allowance })

unfoldable pub each_account_budget : List Json → Loaded (List AccountBudgetUpdate)
each_account_budget [] = success []
each_account_budget (raw ∷ raws) = do
  update ← parse_account_budget raw
  rest ← each_account_budget raws
  success (update ∷ rest)

-- `_parse_account_budget_updates`
unfoldable pub parse_account_budgets : Json → Loaded (List AccountBudgetUpdate)
parse_account_budgets raw = do
  items ← as_array raw
  check (leb (length items) max_policy_account_budgets)
  updates ← each_account_budget items
  check (is_empty (duplicates (map (λ u. u.account_id) updates)))
  success updates

unfoldable pub has_update : List (Text × Json) → Bool
has_update fields =
    has (codes "policy_version") fields
    || has (codes "revoke_lease_ids") fields
    || has (codes "lease_revocations") fields
    || has (codes "account_budgets") fields

-- An update that asks for nothing is no update.
unfoldable pub unless_empty : PolicyUpdate → Option PolicyUpdate
unless_empty u =
    if is_empty u.revoke_lease_ids && is_empty u.lease_revocations && is_empty u.account_budgets
    then none
    else some u

unfoldable pub parse_update_fields : List (Text × Json) → Loaded (Option PolicyUpdate)
parse_update_fields fields = do
  number ← required_positive_int (field_of (codes "policy_version") fields)
  leases ← parse_revoke_lease_ids (field_or (codes "revoke_lease_ids") (array no_items) fields)
  revocations ←
      parse_lease_revocations (field_or (codes "lease_revocations") (array no_items) fields)
  budgets ← parse_account_budgets (field_or (codes "account_budgets") (array no_items) fields)
  check (is_empty (duplicates (leases ++ revoked_ids revocations)))
  success (
      unless_empty (record {
        version = number;
        revoke_lease_ids = leases;
        lease_revocations = revocations;
        account_budgets = budgets;
      }))

-- `_parse_policy_update`
unfoldable pub parse_policy_update : List (Text × Json) → Loaded (Option PolicyUpdate)
parse_policy_update fields = if has_update fields then parse_update_fields fields else success none

abbrev pub policy_fields : List Text
policy_fields =
    codes "schema_version"
    ∷ codes "credentials"
    ∷ codes "policy_version"
    ∷ codes "revoke_lease_ids"
    ∷ codes "lease_revocations"
    ∷ codes "account_budgets"
    ∷ []

-- `== 1`, which `true` and a float also meet
unfoldable pub equals_one : Json → Bool
equals_one (integer n) = n == 1
equals_one (boolean b) = b
equals_one (real (some n)) = n == 1
equals_one _ = false

unfoldable pub parse_static_policy : Json → Loaded StaticPolicy
parse_static_policy raw = do
  fields ← as_object raw
  reject_unknown_keys fields policy_fields
  check (equals_one (field_of (codes "schema_version") fields))
  credentials ← parse_credentials (field_of (codes "credentials") fields)
  update ← parse_policy_update fields
  success (record { credentials = credentials; policy_update = update })

-- `_parse_static_policy_text`, `_parse_private_json`
unfoldable pub parse_static_policy_text : (Text → Loaded Json) → Text → Loaded StaticPolicy
parse_static_policy_text loads text = loads text >>= parse_static_policy
