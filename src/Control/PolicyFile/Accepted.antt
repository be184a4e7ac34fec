-- ===== src/Control/PolicyFile/Accepted.antt =====
-- The update of a policy file, src/chute/control.py, against the relay's own test of an update,
-- `_valid_policy_update` of src/chute/server.py.
use chute.Prelude.{
  ℕ, List, Bool, some, true, false, [], ◌∷◌, ◌++◌, ◌≡◌, ◌≤◌, ◌<◌, ◌&&◌, not, refl, arith, All,
  is_empty, length, leb, map, if◌then◌else◌,
}
use chute.Prelude.Text.{Text, text_eq}
use chute.Server.Registry.{mem}
use chute.Server.Policy.{
  LeaseRevocation, AccountBudgetUpdate, PolicyUpdate, see_lease_ids, valid_revocations,
  valid_account_budgets, valid_policy_update,
}
use chute.Control.Json.{Json, Loaded, success, value_error, crash, ◌>>=◌, ◌>>◌, check}
use chute.Control.PolicyFile.Fields.{
  IsNamed, IsRevocation, IsBudgetUpdate, each_required_str-IsNamed,
  each_lease_revocation-IsRevocation, each_account_budget-IsBudgetUpdate,
}
use chute.Control.PolicyFile.{
  duplicates_from, revoked_ids, parse_revoke_lease_ids, parse_lease_revocations,
  parse_account_budgets, max_policy_revoke_lease_ids, max_policy_lease_revocations,
  max_policy_account_budgets, each_required_str, each_lease_revocation, each_account_budget,
  as_array,
}

-- Whether no value is in `seen` or comes twice.
unfoldable pub distinct_from : List Text → List Text → Bool
distinct_from seen [] = true
distinct_from seen (v ∷ vs) = not (mem v seen) && distinct_from (v ∷ seen) vs

is_empty-concat : (found : List Text) (v : Text) → is_empty (found ++ (v ∷ [])) ≡ false
is_empty-concat [] v = refl
is_empty-concat (f ∷ found) v = refl

mem_of_is_empty : (v : Text) (found : List Text) → is_empty found ≡ true → mem v found ≡ false
unfolding mem
mem_of_is_empty v [] h = refl
mem_of_is_empty v (f ∷ found) h = cc

-- `_duplicates` finds nothing exactly where the values are distinct.
pub duplicates_from-distinct :
    (vs seen found : List Text)
    → is_empty (duplicates_from vs seen found) ≡ true
    → (is_empty found ≡ true) × (distinct_from seen vs ≡ true)
unfolding duplicates_from distinct_from
duplicates_from-distinct [] seen found h = (h, refl)
duplicates_from-distinct (v ∷ vs) seen found h = ground (
  arith,
  duplicates_from-distinct vs (v ∷ seen)
      (if mem v seen && not (mem v found) then found ++ (v ∷ []) else found) h,
  is_empty-concat found v,
  mem_of_is_empty v found,
)

-- The lease ids of an update leave the relay's set such that what follows them is new to it.
see_lease_ids_lem :
    (leases seen rest : List Text)
    → IsNamed leases
    → distinct_from seen (leases ++ rest) ≡ true
    → (after : List Text) × (see_lease_ids leases seen ≡ some after)
      × (distinct_from after rest ≡ true)
unfolding see_lease_ids distinct_from
see_lease_ids_lem [] seen rest n h = (seen, refl, h)
see_lease_ids_lem (l ∷ leases) seen rest n h =
    let (after, e, d) = see_lease_ids_lem leases (l ∷ seen) rest n.1 (ground arith) in
    (after, ground arith, d)

valid_revocations_lem :
    (rs : List LeaseRevocation) (seen : List Text)
    → All IsRevocation rs
    → distinct_from seen (revoked_ids rs) ≡ true
    → valid_revocations rs seen ≡ true
unfolding valid_revocations distinct_from
valid_revocations_lem [] seen a h = refl
valid_revocations_lem (r ∷ rs) seen a h =
    ground (arith, valid_revocations_lem rs (r.lease_id ∷ seen))

valid_account_budgets_lem :
    (us : List AccountBudgetUpdate) (seen : List Text)
    → All IsBudgetUpdate us
    → distinct_from seen (map (λ u. u.account_id) us) ≡ true
    → valid_account_budgets us seen ≡ true
unfolding valid_account_budgets distinct_from
valid_account_budgets_lem [] seen a h = refl
valid_account_budgets_lem (u ∷ us) seen a h =
    ground (arith, valid_account_budgets_lem us (u.account_id ∷ seen))

-- The shape that the three arrays of an update are read in, and what a result tells of it.
items_of_result {ℓ} :
    {A : Type ℓ} (cap : ℕ) (each : List Json → Loaded (List A)) (test : List A → Bool)
    (read : Loaded (List Json)) (xs : List A)
    → (do
      items ← read
      check (leb (length items) cap)
      ys ← each items
      check (test ys)
      success ys)
      ≡ success xs
    → (items : List Json) × (each items ≡ success xs) × (length items ≤ cap) × (test xs ≡ true)
items_of_result cap each test (success items) xs h =
    (items, ground arith, ground arith, ground arith)
items_of_result cap each test value_error xs h = cc
items_of_result cap each test crash xs h = cc

pub parse_revoke_lease_ids_lem :
    (raw : Json) (leases : List Text)
    → parse_revoke_lease_ids raw ≡ success leases
    → IsNamed leases × (length leases ≤ max_policy_revoke_lease_ids)
unfolding parse_revoke_lease_ids
parse_revoke_lease_ids_lem raw leases h =
    let (items, e, c, d) = items_of_result _ each_required_str _ (as_array raw) leases h in
    ground (arith, each_required_str-IsNamed items leases e)

pub parse_lease_revocations_lem :
    (raw : Json) (rs : List LeaseRevocation)
    → parse_lease_revocations raw ≡ success rs
    → All IsRevocation rs × (length rs ≤ max_policy_lease_revocations)
unfolding parse_lease_revocations
parse_lease_revocations_lem raw rs h =
    let (items, e, c, d) = items_of_result _ each_lease_revocation _ (as_array raw) rs h in
    ground (arith, each_lease_revocation-IsRevocation items rs e)

pub parse_account_budgets_lem :
    (raw : Json) (us : List AccountBudgetUpdate)
    → parse_account_budgets raw ≡ success us
    → All IsBudgetUpdate us
      × (length us ≤ max_policy_account_budgets)
      × (distinct_from [] (map (λ u. u.account_id) us) ≡ true)
unfolding parse_account_budgets
parse_account_budgets_lem raw us h =
    let (items, e, c, d) = items_of_result _ each_account_budget _ (as_array raw) us h in
    let (some_updates, few) = each_account_budget-IsBudgetUpdate items us e in
    (some_updates, omega arith, (duplicates_from-distinct _ [] [] d).1)

-- What an update of a policy file has been tested for.
pub record IsTested (u : PolicyUpdate) : Type 0 where
  pub leases_named : IsNamed u.revoke_lease_ids
  pub leases_few : length u.revoke_lease_ids ≤ max_policy_revoke_lease_ids
  pub revocations_known : All IsRevocation u.lease_revocations
  pub revocations_few : length u.lease_revocations ≤ max_policy_lease_revocations
  pub revoked_once : distinct_from [] (u.revoke_lease_ids ++ revoked_ids u.lease_revocations) ≡ true
  pub budgets_valid : All IsBudgetUpdate u.account_budgets
  pub budgets_few : length u.account_budgets ≤ max_policy_account_budgets
  pub accounts_once : distinct_from [] (map (λ b. b.account_id) u.account_budgets) ≡ true

-- The relay takes such an update when it is newer than the version in force.
pub valid_policy_update_of_IsTested :
    (u : PolicyUpdate) (version : ℕ)
    → IsTested u
    → version < u.version
    → valid_policy_update u version ≡ true
unfolding valid_policy_update
valid_policy_update_of_IsTested u version t h =
    let (after, e, d) =
      see_lease_ids_lem u.revoke_lease_ids [] (revoked_ids u.lease_revocations) t.leases_named
        t.revoked_once in
    ground (
      arith,
      e,
      valid_revocations_lem u.lease_revocations after t.revocations_known d,
      valid_account_budgets_lem u.account_budgets [] t.budgets_valid t.accounts_once,
    )
