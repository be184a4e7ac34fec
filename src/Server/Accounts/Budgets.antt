-- ===== src/Server/Accounts/Budgets.antt =====
-- The per-account counters of src/chute/server.py after a grant and after a release.
use chute.Prelude.{
  ℕ, List, Bool, true, false, ◌≡◌, ◌<◌, ◌+◌, ◌-◌, arith, if◌then◌else◌, refl, leb, ◌&&◌,
}
use chute.Prelude.Text.{Text, text_eq}
use chute.Prelude.Dict.{put, pop, get-put, get-pop}
use chute.Server.State.{Relay, Registration, Limit, amount, negative, unlimited}
use chute.Server.Accounts.{
  count_of, drop_bandwidth_if_idle, try_acquire_visitor_budget, visitor_budget_exceeded,
  account_budget, buffer_limit_exceeded, try_reserve_account_buffer, release_account_buffer,
  release_visitor_budget,
}

count_of-put :
    (k j : Text) (n : ℕ) (d : List (Text × ℕ))
    → count_of j (put k n d) ≡ (if text_eq.beq k j then n else count_of j d)
unfolding count_of
count_of-put k j n d = ground (arith, get-put k j n d)

count_of-pop :
    (k j : Text) (d : List (Text × ℕ))
    → count_of j (pop k d) ≡ (if text_eq.beq k j then 0 else count_of j d)
unfolding count_of
count_of-pop k j d = ground (arith, get-pop k j d)

-- Whether a count is within a limit; no count is within a malformed one.
abbrev pub is_within : ℕ → Limit → Bool
is_within n unlimited = true
is_within n (amount limit) = leb n limit
is_within n (negative limit) = false

active_after :
    (account : Text) (relay : Relay)
    → (drop_bandwidth_if_idle account relay).account_active_visitors ≡ relay.account_active_visitors
unfolding drop_bandwidth_if_idle
active_after account relay = ground arith

buffered_after :
    (account : Text) (relay : Relay)
    → (drop_bandwidth_if_idle account relay).account_buffered ≡ relay.account_buffered
unfolding drop_bandwidth_if_idle
buffered_after account relay = ground arith

within_of_visitor :
    (limit : Limit) (n : ℕ)
    → visitor_budget_exceeded limit n ≡ false
    → is_within (n + 1) limit ≡ true
unfolding visitor_budget_exceeded
within_of_visitor unlimited n h = refl
within_of_visitor (amount m) n h = ground arith
within_of_visitor (negative m) n h = ground arith

within_of_buffer :
    (limit : Limit) (n : ℕ) → buffer_limit_exceeded limit n ≡ false → is_within n limit ≡ true
unfolding buffer_limit_exceeded
within_of_buffer unlimited n h = refl
within_of_buffer (amount m) n h = ground arith
within_of_buffer (negative m) n h = ground arith

-- A visitor who is let in leaves the account's visitors within its max_visitors.
pub try_acquire_visitor_budget-is_within :
    (registration : Registration) (relay : Relay)
    → (try_acquire_visitor_budget registration relay).1 ≡ true
    → is_within
        (count_of registration.account_id
          (try_acquire_visitor_budget registration relay).0.account_active_visitors)
        (account_budget registration relay).max_visitors
      ≡ true
unfolding try_acquire_visitor_budget
try_acquire_visitor_budget-is_within registration relay h =
    let account = registration.account_id in
    let active = count_of account relay.account_active_visitors in
    ground (
      arith,
      within_of_visitor (account_budget registration relay).max_visitors active,
      count_of-put account account (active + 1) relay.account_active_visitors,
      text_eq.beq_iff account account,
    )

-- Bytes that are reserved leave the account's unread bytes within its max_buffered_bytes.
pub try_reserve_account_buffer-is_within :
    (registration : Registration) (n : ℕ) (relay : Relay)
    → 0 < n
    → (try_reserve_account_buffer registration n relay).1 ≡ true
    → is_within
        (count_of registration.account_id
          (try_reserve_account_buffer registration n relay).0.account_buffered)
        (account_budget registration relay).max_buffered_bytes
      ≡ true
unfolding try_reserve_account_buffer
try_reserve_account_buffer-is_within registration n relay p h =
    let account = registration.account_id in
    let current = count_of account relay.account_buffered in
    ground (
      arith,
      within_of_buffer (account_budget registration relay).max_buffered_bytes (current + n),
      count_of-put account account (current + n) relay.account_buffered,
      text_eq.beq_iff account account,
    )

buffered-release_account_buffer :
    (account j : Text) (n : ℕ) (relay : Relay)
    → count_of j (release_account_buffer account n relay).account_buffered ≡ (
        if text_eq.beq account j
        then count_of j relay.account_buffered - n
        else count_of j relay.account_buffered)
unfolding release_account_buffer
buffered-release_account_buffer account j n relay =
    let current = count_of account relay.account_buffered in
    ground (
      arith,
      count_of-put account j (current - n) relay.account_buffered,
      count_of-pop account j relay.account_buffered,
      buffered_after account
          (record relay { account_buffered = pop account relay.account_buffered }),
      text_eq.beq_iff account j,
    )

buffered-try_reserve :
    (registration : Registration) (j : Text) (n : ℕ) (relay : Relay)
    → count_of j (try_reserve_account_buffer registration n relay).0.account_buffered ≡ (
        if text_eq.beq registration.account_id j
          && (try_reserve_account_buffer registration n relay).1
        then count_of j relay.account_buffered + n
        else count_of j relay.account_buffered)
unfolding try_reserve_account_buffer
buffered-try_reserve registration j n relay =
    let account = registration.account_id in
    let current = count_of account relay.account_buffered in
    ground (
      arith,
      count_of-put account j (current + n) relay.account_buffered,
      text_eq.beq_iff account j,
    )

-- Releasing what was reserved gives every account the unread bytes that it had before.
pub release_account_buffer-try_reserve_account_buffer :
    (registration : Registration) (n : ℕ) (relay : Relay) (j : Text)
    → (try_reserve_account_buffer registration n relay).1 ≡ true
    → count_of j
        (release_account_buffer registration.account_id n
          (try_reserve_account_buffer registration n relay).0).account_buffered
      ≡ count_of j relay.account_buffered
release_account_buffer-try_reserve_account_buffer registration n relay j h = ground (
  arith,
  buffered-try_reserve registration j n relay,
  buffered-release_account_buffer registration.account_id j n
      (try_reserve_account_buffer registration n relay).0,
)

-- Releasing the slot of a visitor who was let in gives every account the visitors that it had.
pub release_visitor_budget-try_acquire_visitor_budget :
    (registration : Registration) (relay : Relay) (j : Text)
    → (try_acquire_visitor_budget registration relay).1 ≡ true
    → count_of j
        (release_visitor_budget registration
          (try_acquire_visitor_budget registration relay).0).account_active_visitors
      ≡ count_of j relay.account_active_visitors
unfolding try_acquire_visitor_budget release_visitor_budget
release_visitor_budget-try_acquire_visitor_budget registration relay j h =
    let account = registration.account_id in
    let active = count_of account relay.account_active_visitors in
    let taken = put account (active + 1) relay.account_active_visitors in
    ground (
      arith,
      count_of-put account account (active + 1) relay.account_active_visitors,
      count_of-put account j (active + 1) relay.account_active_visitors,
      count_of-put account j (count_of account taken - 1) taken,
      count_of-pop account j taken,
      active_after account (record relay { account_active_visitors = pop account taken }),
      text_eq.beq_iff account j,
      text_eq.beq_iff account account,
    )
