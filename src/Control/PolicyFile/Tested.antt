-- ===== src/Control/PolicyFile/Tested.antt =====
-- A whole policy file, src/chute/control.py: its update and its credentials, once it has been let
-- through.
use chute.Prelude.{
  List, Bool, some, true, false, [], ◌≡◌, refl, arith, subst, Bool-cases, inl, inr, ◌∙◌, ap,
}
use chute.Prelude.Text.{Text, text_eq}
use chute.Server.Policy.{PolicyUpdate}
use chute.Control.Json.{Json, Loaded, success, value_error, crash, ◌>>=◌, ◌>>◌, check}
use chute.Control.PolicyFile.Accepted.{
  IsTested, parse_revoke_lease_ids_lem, parse_lease_revocations_lem, parse_account_budgets_lem,
  duplicates_from-distinct,
}
use chute.Control.PolicyFile.{
  unless_empty, parse_update_fields, required_positive_int, parse_revoke_lease_ids,
  parse_lease_revocations, parse_account_budgets, parse_policy_update, StaticPolicy,
  parse_static_policy_text, parse_static_policy, has_update, as_object, reject_unknown_keys,
  policy_fields, parse_credentials,
}

-- Inversion of a chain that ends well.
pub >>=-eq-success {ℓ κ} :
    {A : Type ℓ} {B : Type κ} (m : Loaded A) (f : A → Loaded B) {b : B}
    → (m >>= f) ≡ success b
    → (a : A) × (m ≡ success a) × (f a ≡ success b)
>>=-eq-success (success a) f h = (a, refl, h)
>>=-eq-success value_error f h = cc
>>=-eq-success crash f h = cc

pub check-eq-success {ℓ} :
    {B : Type ℓ} (t : Bool) (k : Loaded B) {b : B}
    → (check t >> k) ≡ success b
    → (t ≡ true) × (k ≡ success b)
check-eq-success true k h = (refl, h)
check-eq-success false k h = cc

pub success_eq {ℓ} : {A : Type ℓ} {a b : A} → success a ≡ success b → a ≡ b
success_eq h = cc

unless_empty_lem : (u w : PolicyUpdate) → unless_empty u ≡ some w → u ≡ w
unfolding unless_empty
unless_empty_lem u w h = ground arith

parse_update_fields-IsTested :
    (fields : List (Text × Json)) (u : PolicyUpdate)
    → parse_update_fields fields ≡ success (some u)
    → IsTested u
unfolding parse_update_fields
parse_update_fields-IsTested fields u h =
    let (number, e0, h0) = >>=-eq-success (required_positive_int _) _ h in
    let (leases, e1, h1) = >>=-eq-success (parse_revoke_lease_ids _) _ h0 in
    let (rs, e2, h2) = >>=-eq-success (parse_lease_revocations _) _ h1 in
    let (us, e3, h3) = >>=-eq-success (parse_account_budgets _) _ h2 in
    let (once, h4) = check-eq-success _ _ h3 in
    let (named, few) = parse_revoke_lease_ids_lem _ leases e1 in
    let (known, few_rs) = parse_lease_revocations_lem _ rs e2 in
    let (valid_us, few_us, accounts) = parse_account_budgets_lem _ us e3 in
    subst IsTested (unless_empty_lem _ u (success_eq h4)) (record {
      leases_named = named;
      leases_few = few;
      revocations_known = known;
      revocations_few = few_rs;
      revoked_once = (duplicates_from-distinct _ [] [] once).1;
      budgets_valid = valid_us;
      budgets_few = few_us;
      accounts_once = accounts;
    })

parse_policy_update-IsTested :
    (fields : List (Text × Json)) (u : PolicyUpdate)
    → parse_policy_update fields ≡ success (some u)
    → IsTested u
unfolding parse_policy_update
parse_policy_update-IsTested fields u h = elim (Bool-cases (has_update fields)) [
  | inl e ↦ parse_update_fields-IsTested fields u (ground arith)
  | inr e ↦ absurd (ground arith)
]

-- The update of a policy, where it has one, has passed every test.
abbrev pub IsTestedPolicy : StaticPolicy → Type 0
IsTestedPolicy p = (u : PolicyUpdate) → p.policy_update ≡ some u → IsTested u

pub parse_static_policy_text-IsTestedPolicy :
    (loads : Text → Loaded Json) (text : Text) (p : StaticPolicy)
    → parse_static_policy_text loads text ≡ success p
    → IsTestedPolicy p
unfolding parse_static_policy_text parse_static_policy
parse_static_policy_text-IsTestedPolicy loads text p h u e =
    let (raw, e0, h0) = >>=-eq-success (loads text) _ h in
    let (fields, e1, h1) = >>=-eq-success (as_object raw) _ h0 in
    let (keys, e2, h2) = >>=-eq-success (reject_unknown_keys fields policy_fields) _ h1 in
    let (version, h3) = check-eq-success _ _ h2 in
    let (credentials, e4, h4) = >>=-eq-success (parse_credentials _) _ h3 in
    let (update, e5, h5) = >>=-eq-success (parse_policy_update fields) _ h4 in
    parse_policy_update-IsTested fields u
      (e5 ∙ ap success (ap (λ (q : StaticPolicy). q.policy_update) (success_eq h5) ∙ e))
