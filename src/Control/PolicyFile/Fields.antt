-- ===== src/Control/PolicyFile/Fields.antt =====
-- What the fields of a policy file are that src/chute/control.py lets through.
use chute.Prelude.{
  ℕ, List, Option, none, some, true, false, [], ◌∷◌, ◌≡◌, refl, arith, All, is_empty, length,
}
use chute.Prelude.Text.{Text, text_eq}
use chute.Server.State.{Budget}
use chute.Server.Accounts.{valid_budget, valid_optional_limit}
use chute.Control.Json.{
  Json, success, string, boolean, integer, negative, real, array, object, null, Fields, field_list,
  field_of, field_or, crash,
}
use chute.Control.PolicyFile.{
  limit_of, parse_budget, required_str, each_required_str, LeaseRevocation, action_of_str,
  parse_action, parse_lease_revocation, each_lease_revocation, AccountBudgetUpdate,
  parse_account_budget, each_account_budget, Action, parse_credential, as_object, assert_some,
  optional_nonnegative_int, reject_unknown_keys, credential_fields, codes, parse_token_sha256,
  unlimited_tunnels,
}
use chute.Server.Policy.{known_action}

limit_of-valid : (o : Option ℕ) → valid_optional_limit (limit_of o) ≡ true
unfolding valid_optional_limit limit_of
limit_of-valid none = refl
limit_of-valid (some n) = refl

-- The budget of four limits that may be missing.
budget_of-valid :
    (v b r f : Option ℕ)
    → valid_budget (record {
      max_visitors = limit_of v;
      max_bytes_per_sec = limit_of b;
      max_reconnects_per_min = limit_of r;
      max_buffered_bytes = limit_of f;
    })
      ≡ true
unfolding valid_budget
budget_of-valid v b r f =
    ground (arith, limit_of-valid v, limit_of-valid b, limit_of-valid r, limit_of-valid f)

pub parse_budget-valid :
    (raw : Json) (b : Budget) → parse_budget raw ≡ success b → valid_budget b ≡ true
unfolding parse_budget
parse_budget-valid raw b h = grind (arith, budget_of-valid)

pub required_str-ne : (raw : Json) (t : Text) → required_str raw ≡ success t → is_empty t ≡ false
unfolding required_str
required_str-ne (string (c ∷ cs)) t h = ground arith
required_str-ne (string []) t h = cc
required_str-ne null t h = cc
required_str-ne (boolean b) t h = cc
required_str-ne (integer n) t h = cc
required_str-ne (negative n) t h = cc
required_str-ne (real o) t h = cc
required_str-ne (array items) t h = cc
required_str-ne (object members) t h = cc

-- Texts that a relay takes for lease ids.
abbrev pub IsNamed : List Text → Type 0
IsNamed ts = All (λ t. is_empty t ≡ false) ts

pub each_required_str-IsNamed :
    (raws : List Json) (ts : List Text)
    → each_required_str raws ≡ success ts
    → IsNamed ts × (length ts ≡ length raws)
unfolding each_required_str
each_required_str-IsNamed [] [] h = (tt, refl)
each_required_str-IsNamed [] (t ∷ ts) h = cc
each_required_str-IsNamed (raw ∷ raws) [] h = ground arith
each_required_str-IsNamed (raw ∷ raws) (t ∷ ts) h =
    ground (arith, required_str-ne raw t, each_required_str-IsNamed raws ts)

-- A revocation that a relay takes.
abbrev pub IsRevocation : LeaseRevocation → Type 0
IsRevocation r = (is_empty r.lease_id ≡ false) × (known_action r.action ≡ true)

action_of_str-known : (s : Text) (a : Action) → action_of_str s ≡ success a → known_action a ≡ true
unfolding action_of_str known_action
action_of_str-known s a h = ground arith

parse_action-known :
    (raw : Json) (a : Action) → parse_action raw ≡ success a → known_action a ≡ true
unfolding parse_action
parse_action-known (string s) a h = action_of_str-known s a h
parse_action-known null a h = cc
parse_action-known (boolean b) a h = cc
parse_action-known (integer n) a h = cc
parse_action-known (negative n) a h = cc
parse_action-known (real o) a h = cc
parse_action-known (array xs) a h = cc
parse_action-known (object members) a h = cc

parse_lease_revocation-IsRevocation :
    (raw : Json) (r : LeaseRevocation) → parse_lease_revocation raw ≡ success r → IsRevocation r
unfolding parse_lease_revocation
parse_lease_revocation-IsRevocation raw r h = grind (arith, required_str-ne, parse_action-known)

pub each_lease_revocation-IsRevocation :
    (raws : List Json) (rs : List LeaseRevocation)
    → each_lease_revocation raws ≡ success rs
    → All IsRevocation rs × (length rs ≡ length raws)
unfolding each_lease_revocation
each_lease_revocation-IsRevocation [] [] h = (tt, refl)
each_lease_revocation-IsRevocation [] (r ∷ rs) h = cc
each_lease_revocation-IsRevocation (raw ∷ raws) [] h = ground arith
each_lease_revocation-IsRevocation (raw ∷ raws) (r ∷ rs) h =
    ground
      (arith, parse_lease_revocation-IsRevocation raw r, each_lease_revocation-IsRevocation raws rs)

-- A budget update that a relay takes.
abbrev pub IsBudgetUpdate : AccountBudgetUpdate → Type 0
IsBudgetUpdate u = (is_empty u.account_id ≡ false) × (valid_budget u.budget ≡ true)

parse_account_budget-IsBudgetUpdate :
    (raw : Json) (u : AccountBudgetUpdate) → parse_account_budget raw ≡ success u → IsBudgetUpdate u
unfolding parse_account_budget
parse_account_budget-IsBudgetUpdate raw u h = grind (arith, required_str-ne, parse_budget-valid)

pub each_account_budget-IsBudgetUpdate :
    (raws : List Json) (us : List AccountBudgetUpdate)
    → each_account_budget raws ≡ success us
    → All IsBudgetUpdate us × (length us ≡ length raws)
unfolding each_account_budget
each_account_budget-IsBudgetUpdate [] [] h = (tt, refl)
each_account_budget-IsBudgetUpdate [] (u ∷ us) h = cc
each_account_budget-IsBudgetUpdate (raw ∷ raws) [] h = ground arith
each_account_budget-IsBudgetUpdate (raw ∷ raws) (u ∷ us) h =
    ground
      (arith, parse_account_budget-IsBudgetUpdate raw u, each_account_budget-IsBudgetUpdate raws us)

-- A credential that is valid up to its max_tunnels, and whose max_tunnels is null, fails the
-- assertion instead of a check.
pub parse_credential-null_tunnels :
    (members : Fields) (identity digest account : Text)
    → reject_unknown_keys (field_list members) credential_fields ≡ success tt
    → required_str (field_of (codes "credential_id") (field_list members)) ≡ success identity
    → parse_token_sha256 (field_of (codes "token_sha256") (field_list members)) ≡ success digest
    → required_str (field_of (codes "account_id") (field_list members)) ≡ success account
    → field_or (codes "max_tunnels") (integer unlimited_tunnels) (field_list members) ≡ null
    → parse_credential (object members) ≡ crash
unfolding parse_credential as_object assert_some optional_nonnegative_int
parse_credential-null_tunnels members identity digest account k i t a n = simp (k, i, t, a, n)
