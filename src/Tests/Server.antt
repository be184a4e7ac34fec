-- ===== src/Tests/Server.antt =====
-- The relay's registries, limits and request heads, src/chute/server.py.
use chute.Prelude.{
  ◌≢◌, ℕ, List, Bool, Option, none, some, true, false, [], ◌∷◌, ◌++◌, ◌≡◌, ◌≤◌, ◌<◌, ◌+◌, ◌⊎◌, inl,
  inr, arith, refl, ◌↔◌, length,
}
use chute.Prelude.Text.{codes, text_beq, text_eq, Text}
use chute.Server.State.{Relay, Registration, Budget, amount, registration_at, unlimited, AuthResult}
use chute.Server.Registry.Coherent.{IsCoherent, install_registration-IsCoherent, holds, is_of}
use chute.Server.Registry.Changes.{deregister_if_current-IsCoherent}
use chute.Server.VisitorIps.Cap.{
  IsCapped, try_acquire_visitor_ip-IsCapped, release_visitor_ip-try_acquire_visitor_ip,
}
use chute.Server.Registry.Sets.{listed}
use chute.Server.Registry.{
  install_registration, labels_of, mem, held_by, displace_held, displace, deregister_if_current,
  add, is_held,
}
use chute.Prelude.Dict.{get, put}
use chute.Server.VisitorIps.{VisitorIps, try_acquire_visitor_ip, acquire_key, release_visitor_ip}
use chute.Server.Accounts.{
  count_of, try_acquire_visitor_budget, try_reserve_account_buffer, visitor_budget_exceeded,
  buffer_limit_exceeded, account_budget, release_account_buffer, release_visitor_budget,
}
use chute.Server.RateLimits.{
  Attempts, auth_rate_ok, attempts_of, fresh_attempts, auth_fail_window, auth_fail_max,
  fresh_attempts,
}
use chute.Server.RateLimits.Bounds.{count_fresh, auth_rate_ok_lem}
use chute.Server.Accounts.Budgets.{
  is_within, try_acquire_visitor_budget-is_within, try_reserve_account_buffer-is_within,
  release_account_buffer-try_reserve_account_buffer,
  release_visitor_budget-try_acquire_visitor_budget,
}
use chute.Server.Claims.{subdomain_taken, authorize_claim, owned_labels}
use chute.Server.Claims.Tunnels.{holds-authorize_claim}
use chute.Server.Claims.Limit.{
  authorize_claim_bound, AreDistinct, AreOwned, owns, pending_in, length-owned_labels,
}
use chute.Server.Registry.{hold_pending}

abbrev pub no_budget : Budget
no_budget = record {
  max_visitors = amount 2;
  max_bytes_per_sec = unlimited;
  max_reconnects_per_min = unlimited;
  max_buffered_bytes = amount 100;
}

abbrev pub alice : Registration
alice = record {
  mux = 0;
  account_id = codes "alice";
  budget = no_budget;
  credential_id = none;
  accepting_visitors = true;
  lease_id = some (codes "lease");
  lease_expires_at = none;
  lease_observed_at = none;
  lease_generation = 0;
}

abbrev bob : Registration
bob = record alice { mux = 1; account_id = codes "bob" }

abbrev pub empty_relay : Relay
empty_relay = record {
  registrations = alice ∷ bob ∷ [];
  agents = [];
  pending_agents = [];
  max_agents = 10;
  account_labels = [];
  lease_labels = [];
  pending_lease_labels = [];
  account_active_visitors = [];
  account_buffered = [];
  account_bandwidth = [];
  account_budget_overrides = [];
  policy_version = 3;
  policy_updates_applied = 0;
  policy_updates_rejected = 0;
  lease_revocations = 0;
  lease_expirations = 0;
  scheduled = [];
}

empty_relay-IsCoherent : IsCoherent empty_relay
unfolding listed labels_of mem holds held_by is_of get
empty_relay-IsCoherent account label = refl

abbrev pub alice_relay : Relay
alice_relay = install_registration (codes "app") 0 alice empty_relay

pub alice_relay-IsCoherent : IsCoherent alice_relay
unfolding registration_at
alice_relay-IsCoherent =
    install_registration-IsCoherent (codes "app") 0 alice empty_relay refl empty_relay-IsCoherent

-- Bob takes over a label that Alice holds.
install_registration-IsCoherent_example :
    IsCoherent (install_registration (codes "app") 1 bob alice_relay)
unfolding registration_at install_registration displace_held held_by get
install_registration-IsCoherent_example =
    install_registration-IsCoherent (codes "app") 1 bob alice_relay refl alice_relay-IsCoherent

install_run : (install_registration (codes "app") 1 bob alice_relay).agents ≡ (codes "app", 1) ∷ []
unfolding install_registration displace_held held_by registration_at displace get put text_beq
    chute.Server.Accounts.drop_bandwidth_if_idle chute.Server.Accounts.account_has_local_work
    chute.Prelude.Dict.has chute.Server.Registry.remove_from chute.Server.Registry.add_to
    chute.Server.Registry.discard_label chute.Server.Registry.add chute.Prelude.Dict.pop
install_run = refl

-- Two visitors of one source, with room for three.
abbrev two_visitors : VisitorIps
two_visitors = (codes "1.2.3.4", 2) ∷ []

two_visitors-IsCapped : IsCapped 3 two_visitors
unfolding count_of get
two_visitors-IsCapped = (λ j. ground arith, omega arith)

try_acquire_visitor_ip-IsCapped_example :
    IsCapped 3 (try_acquire_visitor_ip (some 3) (some (codes "1.2.3.4")) two_visitors).0
try_acquire_visitor_ip-IsCapped_example =
    try_acquire_visitor_ip-IsCapped 3 (some (codes "1.2.3.4")) two_visitors two_visitors-IsCapped

acquire_run :
    try_acquire_visitor_ip (some 3) (some (codes "1.2.3.4")) two_visitors
    ≡ ((codes "1.2.3.4", 3) ∷ [], (true, some (codes "1.2.3.4")))
unfolding try_acquire_visitor_ip acquire_key count_of get put text_beq
acquire_run = refl

release_visitor_ip-try_acquire_visitor_ip_example :
    count_of (codes "1.2.3.4") (
      release_visitor_ip
        (try_acquire_visitor_ip (some 3) (some (codes "1.2.3.4")) two_visitors).1.1
        (try_acquire_visitor_ip (some 3) (some (codes "1.2.3.4")) two_visitors).0)
    ≡ count_of (codes "1.2.3.4") two_visitors
unfolding try_acquire_visitor_ip acquire_key count_of get put text_beq
release_visitor_ip-try_acquire_visitor_ip_example =
    release_visitor_ip-try_acquire_visitor_ip (some 3) (some (codes "1.2.3.4")) two_visitors
      (codes "1.2.3.4") refl

abbrev four_failures : Attempts
four_failures = (codes "k", 10 ∷ 20 ∷ 30 ∷ 40 ∷ 50 ∷ []) ∷ []

auth_rate_ok_example :
    ((auth_rate_ok 75 (some (codes "k")) four_failures).1 ≡ true)
    ↔ (count_fresh auth_fail_window 75 (attempts_of (codes "k") four_failures) < auth_fail_max)
auth_rate_ok_example = auth_rate_ok_lem 75 (codes "k") four_failures

auth_rate_run : (auth_rate_ok 75 (some (codes "k")) four_failures).1 ≡ true
unfolding auth_rate_ok attempts_of get fresh_attempts text_beq
auth_rate_run = refl

auth_rate_full_run : (auth_rate_ok 60 (some (codes "k")) four_failures).1 ≡ false
unfolding auth_rate_ok attempts_of get fresh_attempts text_beq
auth_rate_full_run = refl

try_acquire_visitor_budget-is_within_example :
    is_within
      (count_of alice.account_id
        (try_acquire_visitor_budget alice empty_relay).0.account_active_visitors)
      (account_budget alice empty_relay).max_visitors
    ≡ true
unfolding try_acquire_visitor_budget visitor_budget_exceeded count_of account_budget get
try_acquire_visitor_budget-is_within_example =
    try_acquire_visitor_budget-is_within alice empty_relay refl

try_reserve_account_buffer-is_within_example :
    is_within
      (count_of alice.account_id
        (try_reserve_account_buffer alice 60 empty_relay).0.account_buffered)
      (account_budget alice empty_relay).max_buffered_bytes
    ≡ true
unfolding try_reserve_account_buffer buffer_limit_exceeded count_of account_budget get
try_reserve_account_buffer-is_within_example =
    try_reserve_account_buffer-is_within alice 60 empty_relay (omega arith) refl

release_account_buffer-try_reserve_example :
    count_of
      (codes "alice")
      (release_account_buffer alice.account_id 60
        (try_reserve_account_buffer alice 60 empty_relay).0).account_buffered
    ≡ count_of (codes "alice") empty_relay.account_buffered
unfolding try_reserve_account_buffer buffer_limit_exceeded count_of account_budget get
release_account_buffer-try_reserve_example =
    release_account_buffer-try_reserve_account_buffer alice 60 empty_relay (codes "alice") refl

release_visitor_budget-try_acquire_example :
    count_of
      (codes "alice")
      (release_visitor_budget alice
        (try_acquire_visitor_budget alice empty_relay).0).account_active_visitors
    ≡ count_of (codes "alice") empty_relay.account_active_visitors
unfolding try_acquire_visitor_budget visitor_budget_exceeded count_of account_budget get
release_visitor_budget-try_acquire_example =
    release_visitor_budget-try_acquire_visitor_budget alice empty_relay (codes "alice") refl

-- Bob, with room for one tunnel, claims a free label next to Alice's.
abbrev bob_auth : AuthResult
bob_auth = record {
  account_id = codes "bob";
  max_tunnels = 1;
  allowed_label = none;
  budget = no_budget;
  credential_id = none;
}

authorize_run : authorize_claim bob_auth (codes "web") alice_relay ≡ none
unfolding authorize_claim chute.Server.Claims.is_allowed chute.Server.Claims.is_taken held_by get
    install_registration put displace_held text_beq chute.Prelude.Dict.has mem owned_labels
    chute.Server.Claims.add_pending labels_of chute.Server.Registry.add_to
authorize_run = refl

taken_run : authorize_claim bob_auth (codes "app") alice_relay ≡ some subdomain_taken
unfolding authorize_claim chute.Server.Claims.is_allowed chute.Server.Claims.is_taken held_by get
    install_registration put displace_held text_beq chute.Prelude.Dict.has mem owned_labels
    chute.Server.Claims.add_pending labels_of chute.Server.Registry.add_to registration_at
taken_run = refl

bob_is_not_alice : codes "alice" ≢ bob_auth.account_id
bob_is_not_alice e = ground arith

holds-authorize_claim_example :
    holds (codes "alice") (codes "app") (install_registration (codes "web") 1 bob alice_relay)
    ≡ holds (codes "alice") (codes "app") alice_relay
unfolding registration_at install_registration displace_held held_by get
holds-authorize_claim_example =
    holds-authorize_claim bob_auth (codes "web") (codes "app") (codes "alice") 1 bob alice_relay
      authorize_run refl refl bob_is_not_alice

-- Bob holds nothing and waits for nothing.
bob_owns_little :
    (before : List Text)
    → AreDistinct before
    → AreOwned bob_auth.account_id alice_relay before
    → length before ≤ bob_auth.max_tunnels
unfolding owned_labels chute.Server.Claims.add_pending install_registration displace_held held_by
    get labels_of chute.Server.Registry.add_to put text_beq
bob_owns_little before d o =
    omega
      (arith, length-owned_labels bob_auth.account_id alice_relay before alice_relay-IsCoherent d o)

authorize_claim_bound_example : length (codes "web" ∷ []) ≤ bob_auth.max_tunnels
unfolding owns pending_in hold_pending holds held_by get put install_registration displace_held
    text_beq is_of mem registration_at
authorize_claim_bound_example =
    authorize_claim_bound bob_auth (codes "web") 1 bob alice_relay (codes "web" ∷ [])
      alice_relay-IsCoherent authorize_run bob_owns_little (refl, tt) (refl, tt)

deregister_if_current-IsCoherent_example :
    IsCoherent (deregister_if_current (codes "app") 0 alice_relay)
deregister_if_current-IsCoherent_example =
    deregister_if_current-IsCoherent (codes "app") 0 alice_relay alice_relay-IsCoherent
