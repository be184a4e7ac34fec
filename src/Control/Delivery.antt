-- ===== src/Control/Delivery.antt =====
-- From a policy file to the relay: what src/chute/control.py hands out of the policy in place, and
-- what src/chute/server.py makes of it.
use chute.Prelude.{
  ℕ, Bool, Option, none, some, true, false, ◌≡◌, inl, inr, arith, refl, ◌∙◌, eq_of_some_eq, subst,
  Option-cases,
}
use chute.Prelude.Text.{Text}
use chute.Server.Policy.{PolicyUpdate, valid_policy_update}
use chute.Control.{
  Plane, PrivateTextFile, StaticPolicy, newer_update, prune_for_poll, PolicyUpdateRequest,
  Fingerprint,
}
use chute.Control.Json.{Json, Loaded, success, value_error, crash}
use chute.Control.PolicyFile.Accepted.{IsTested, valid_policy_update_of_IsTested}
use chute.Control.PolicyFile.Tested.{IsTestedPolicy, parse_static_policy_text-IsTestedPolicy}
use chute.Control.Policies.{
  load_policy, load_snapshot, load_unless_known, install_policy, keep, keep_last_good,
  poll_policy_updates,
}

-- The policy in place, where there is one, comes from a file that was let through.
abbrev pub HasTestedPolicy : Plane → Type 0
HasTestedPolicy plane = (p : StaticPolicy) → plane.policy ≡ some p → IsTestedPolicy p

-- What a load answers.
abbrev LoadIsTested : Option (Plane × StaticPolicy) → Type 0
LoadIsTested none = Unit
LoadIsTested (some (after, p)) = HasTestedPolicy after × IsTestedPolicy p

keep-LoadIsTested :
    (policy : Option StaticPolicy) (plane : Plane)
    → ((p : StaticPolicy) → policy ≡ some p → IsTestedPolicy p)
    → HasTestedPolicy plane
    → LoadIsTested (keep policy plane)
unfolding keep
keep-LoadIsTested none plane h k = tt
keep-LoadIsTested (some p) plane h k = (k, h p refl)

newer_update-valid :
    (current : ℕ) (update : Option PolicyUpdate) (u : PolicyUpdate)
    → ((w : PolicyUpdate) → update ≡ some w → IsTested w)
    → newer_update current update ≡ some u
    → valid_policy_update u current ≡ true
unfolding newer_update
newer_update-valid current none u t h = cc
newer_update-valid current (some w) u t h =
    valid_policy_update_of_IsTested u current (t u (ground arith)) (ground arith)

prune_for_poll-HasTestedPolicy :
    (request : PolicyUpdateRequest) (plane : Plane)
    → HasTestedPolicy plane
    → HasTestedPolicy (prune_for_poll request plane)
unfolding prune_for_poll
prune_for_poll-HasTestedPolicy request plane h p e = h p (ground arith)

module _ (hash : Text → Text) (loads : Text → Loaded Json) where
  install-LoadIsTested :
      (fingerprint : Fingerprint) (parsed : Loaded StaticPolicy) (plane : Plane)
      → ((p : StaticPolicy) → parsed ≡ success p → IsTestedPolicy p)
      → HasTestedPolicy plane
      → LoadIsTested (install_policy hash loads fingerprint parsed plane)
  unfolding install_policy keep_last_good
  install-LoadIsTested fingerprint crash plane h k = tt
  install-LoadIsTested fingerprint value_error plane h k =
      keep-LoadIsTested plane.policy (record plane { bad_policy_fingerprint = some fingerprint }) k
        k
  install-LoadIsTested fingerprint (success p) plane h k =
      (λ q e. subst IsTestedPolicy (eq_of_some_eq e) (h p refl), h p refl)

  unless_known-LoadIsTested :
      (policy : Option StaticPolicy) (known : Bool) (snapshot : PrivateTextFile) (plane : Plane)
      → ((p : StaticPolicy) → policy ≡ some p → IsTestedPolicy p)
      → HasTestedPolicy plane
      → LoadIsTested (load_unless_known hash loads policy known snapshot plane)
  unfolding load_unless_known
  unless_known-LoadIsTested (some p) true snapshot plane h k = (k, h p refl)
  unless_known-LoadIsTested (some p) false snapshot plane h k =
      install-LoadIsTested snapshot.fingerprint _ plane
        (parse_static_policy_text-IsTestedPolicy loads snapshot.text) k
  unless_known-LoadIsTested none known snapshot plane h k =
      install-LoadIsTested snapshot.fingerprint _ plane
        (parse_static_policy_text-IsTestedPolicy loads snapshot.text) k

  pub load_policy-LoadIsTested :
      (file : Loaded PrivateTextFile) (plane : Plane)
      → HasTestedPolicy plane
      → LoadIsTested (load_policy hash loads file plane)
  unfolding load_policy load_snapshot keep_last_good
  load_policy-LoadIsTested crash plane k = tt
  load_policy-LoadIsTested value_error plane k = keep-LoadIsTested plane.policy plane k k
  load_policy-LoadIsTested (success snapshot) plane k =
      unless_known-LoadIsTested plane.policy _ snapshot plane k k

  -- Whatever the policy file holds, an update that a poll hands out is one that the relay whose
  -- version was asked for accepts, as long as the policy in place was from a file let through; and
  -- the policy in place after the poll is from a file let through too.
  pub poll_policy_updates-valid :
      (request : PolicyUpdateRequest) (file : Loaded PrivateTextFile) (plane after : Plane)
      (update : Option PolicyUpdate)
      → HasTestedPolicy plane
      → poll_policy_updates hash loads request file plane ≡ some (after, update)
      → HasTestedPolicy after
        × ((u : PolicyUpdate)
            → update ≡ some u
            → valid_policy_update u request.current_version ≡ true)
  unfolding poll_policy_updates
  poll_policy_updates-valid request file plane after update h e =
      elim (Option-cases (load_policy hash loads file (prune_for_poll request plane))) [
        | inl missing ↦ absurd (ground arith)
        | inr ((found, p), is) ↦
            let tested : LoadIsTested (some (found, p)) = subst LoadIsTested is (
              load_policy-LoadIsTested file (prune_for_poll request plane)
                (prune_for_poll-HasTestedPolicy request plane h)) in
            let same : found ≡ after = ground arith in
            let handed : newer_update request.current_version p.policy_update ≡ update =
              ground arith in
            (
              subst HasTestedPolicy same tested.0,
              λ u is_u.
                  newer_update-valid request.current_version p.policy_update u tested.1
                    (handed ∙ is_u),
            )
      ]
