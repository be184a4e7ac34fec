-- ===== src/Server/Accounts.antt =====
-- The per-account budgets of src/chute/server.py: visitors, unread bytes, and what is dropped when
-- an account has nothing left on this relay.
pub mod Budgets
use chute.Prelude.{
  ℕ, List, Bool, true, ◌&&◌, if◌then◌else◌, false, ◌||◌, leb, ltb, ◌+◌, ◌-◌, any, none, some,
}
use chute.Server.State.{
  Limit, Budget, Relay, Registration, registration_at, amount, negative, unlimited,
}
use chute.Prelude.Text.{Text, text_eq, text_beq}
use chute.Prelude.Dict.{get, has, pop, put}

-- `_valid_optional_limit`, `_valid_budget`
unfoldable pub valid_optional_limit : Limit → Bool
valid_optional_limit unlimited = true
valid_optional_limit (amount n) = true
valid_optional_limit (negative n) = false

unfoldable pub valid_budget : Budget → Bool
unfolding valid_optional_limit
valid_budget b =
    valid_optional_limit b.max_visitors
    && valid_optional_limit b.max_bytes_per_sec
    && valid_optional_limit b.max_reconnects_per_min
    && valid_optional_limit b.max_buffered_bytes

-- `d.get(k, 0)`
unfoldable pub count_of : Text → List (Text × ℕ) → ℕ
count_of k d = elim (get k d) [ none ↦ 0 | some n ↦ n ]

-- Whether a pending registration belongs to the account.
unfoldable pub is_pending_for : Relay → Text → Text × ℕ → Bool
is_pending_for relay account (label, r) = elim (registration_at r relay) [
  | none ↦ false
  | some registration ↦ text_beq registration.account_id account
]

-- `_account_has_local_work`
unfoldable pub account_has_local_work : Text → Relay → Bool
unfolding count_of is_pending_for
account_has_local_work account relay =
    has account relay.account_labels
    || ltb 0 (count_of account relay.account_active_visitors)
    || ltb 0 (count_of account relay.account_buffered)
    || any (is_pending_for relay account) relay.pending_agents

-- `_drop_account_bandwidth_if_idle`
unfoldable pub drop_bandwidth_if_idle : Text → Relay → Relay
drop_bandwidth_if_idle account relay =
    if account_has_local_work account relay then relay else record relay {
      account_bandwidth = pop account relay.account_bandwidth;
      account_budget_overrides = pop account relay.account_budget_overrides;
    }

-- `_account_budget`
unfoldable pub account_budget : Registration → Relay → Budget
account_budget registration relay =
    elim (get registration.account_id relay.account_budget_overrides) [
      | none ↦ registration.budget
      | some b ↦ b
    ]

-- `_visitor_budget_exceeded`
unfoldable pub visitor_budget_exceeded : Limit → ℕ → Bool
visitor_budget_exceeded unlimited active = false
visitor_budget_exceeded (amount n) active = leb n active
visitor_budget_exceeded (negative n) active = true

-- `_try_acquire_visitor_budget`
unfoldable pub try_acquire_visitor_budget : Registration → Relay → Relay × Bool
try_acquire_visitor_budget registration relay =
    let account = registration.account_id in
    let active = count_of account relay.account_active_visitors in
    if visitor_budget_exceeded (account_budget registration relay).max_visitors active
    then (relay, false)
    else (
      record relay {
        account_active_visitors = put account (active + 1) relay.account_active_visitors;
      },
      true,
    )

-- `_release_visitor_budget`
unfoldable pub release_visitor_budget : Registration → Relay → Relay
release_visitor_budget registration relay =
    let account = registration.account_id in
    let current = count_of account relay.account_active_visitors in
    if leb current 1
    then drop_bandwidth_if_idle account
        (record relay { account_active_visitors = pop account relay.account_active_visitors })
    else record relay {
      account_active_visitors = put account (current - 1) relay.account_active_visitors;
    }

-- Whether `current + n` passes the limit, or the limit is malformed.
unfoldable pub buffer_limit_exceeded : Limit → ℕ → Bool
buffer_limit_exceeded unlimited wanted = false
buffer_limit_exceeded (amount n) wanted = ltb n wanted
buffer_limit_exceeded (negative n) wanted = true

-- `_try_reserve_account_buffer`, the answer that `Mux` gets as `buffer_reserve`.
unfoldable pub try_reserve_account_buffer : Registration → ℕ → Relay → Relay × Bool
try_reserve_account_buffer registration n relay =
    let account = registration.account_id in
    let current = count_of account relay.account_buffered in
    if leb n 0
    then (relay, true)
    else if buffer_limit_exceeded (account_budget registration relay).max_buffered_bytes
        (current + n)
    then (relay, false)
    else (
      record relay { account_buffered = put account (current + n) relay.account_buffered },
      true,
    )

-- `_release_account_buffer`
unfoldable pub release_account_buffer : Text → ℕ → Relay → Relay
release_account_buffer account n relay =
    let current = count_of account relay.account_buffered in
    if leb n 0
    then relay
    else if leb current n
    then drop_bandwidth_if_idle account
        (record relay { account_buffered = pop account relay.account_buffered })
    else record relay { account_buffered = put account (current - n) relay.account_buffered }
