-- ===== src/Server/RateLimits.antt =====
-- The two sliding-window limiters of src/chute/server.py: failed authentications per source, and
-- reconnects per account. Times are whole seconds of the monotonic clock.
pub mod Bounds
use chute.Prelude.{
  ℕ, List, Bool, Option, ◌∷◌, if◌then◌else◌, true, some, ltb, all, is_empty, leb, ◌-◌, length, ◌++◌,
  [], false, none,
}
use chute.Prelude.Text.{Text, text_eq}
use chute.Prelude.Dict.{get, put, pop}
use chute.Server.State.{Limit, negative, amount, unlimited}

abbrev pub auth_fail_max : ℕ
auth_fail_max = 5

abbrev pub auth_fail_window : ℕ
auth_fail_window = 60

abbrev pub auth_fail_sweep_at : ℕ
auth_fail_sweep_at = 4096

abbrev pub auth_fail_max_ips : ℕ
auth_fail_max_ips = 65536

abbrev pub reconnect_window : ℕ
reconnect_window = 60

abbrev pub reconnect_sweep_at : ℕ
reconnect_sweep_at = 4096

abbrev pub reconnect_max_accounts : ℕ
reconnect_max_accounts = 65536

abbrev pub Attempts : Type 0
Attempts = List (Text × List ℕ)

-- [t for t in fails if now - t < window]
unfoldable pub fresh_attempts : ℕ → ℕ → List ℕ → List ℕ
fresh_attempts window now [] = []
fresh_attempts window now (t ∷ ts) =
    let rest = fresh_attempts window now ts in if ltb (now - t) window then t ∷ rest else rest

unfoldable pub attempts_of : Text → Attempts → List ℕ
attempts_of k d = elim (get k d) [ none ↦ [] | some ts ↦ ts ]

-- A key whose every attempt is out of the window is swept.
unfoldable pub sweep : ℕ → ℕ → Attempts → Attempts
sweep window now [] = []
sweep window now ((k, ts) ∷ d) =
    let rest = sweep window now d in
    if all (λ t. leb window (now - t)) ts then rest else (k, ts) ∷ rest

-- `while len(d) > n: d.pop(next(iter(d)))`
unfoldable pub evict_oldest : ℕ → Attempts → Attempts
evict_oldest n [] = []
evict_oldest n (e ∷ d) =
    let rest = evict_oldest n d in if ltb n (length (e ∷ d)) then rest else e ∷ d

abbrev pub keep_fresh : Text → List ℕ → Attempts → Attempts
keep_fresh k left d = if is_empty left then pop k d else put k left d

-- `_auth_rate_ok`; a source without a key is not limited.
unfoldable pub auth_rate_ok : ℕ → Option Text → Attempts → Attempts × Bool
auth_rate_ok now none fails = (fails, true)
auth_rate_ok now (some key) fails =
    if is_empty (attempts_of key fails)
    then (fails, true)
    else let left = fresh_attempts auth_fail_window now (attempts_of key fails) in
      (keep_fresh key left fails, ltb (length left) auth_fail_max)

-- `_record_auth_fail`
unfoldable pub record_auth_fail : ℕ → Option Text → Attempts → Attempts
record_auth_fail now none fails = fails
record_auth_fail now (some key) fails =
    let noted = put key (attempts_of key fails ++ (now ∷ [])) fails in
    let swept =
      if ltb auth_fail_sweep_at (length noted) then sweep auth_fail_window now noted else noted in
    evict_oldest auth_fail_max_ips swept

-- `_fresh_account_reconnects`
unfoldable pub fresh_account_reconnects : Text → ℕ → Attempts → Attempts × List ℕ
fresh_account_reconnects account now d =
    if is_empty (attempts_of account d)
    then (d, [])
    else let left = fresh_attempts reconnect_window now (attempts_of account d) in
      (keep_fresh account left d, left)

-- The rest of `_account_reconnect_budget_ok`, for the attempts still in the window.
unfoldable pub reserve_reconnect : Text → ℕ → ℕ → List ℕ → Attempts → Attempts × Bool
reserve_reconnect account now limit attempts d =
    if leb limit (length attempts)
    then (keep_fresh account attempts d, false)
    else let noted = put account (attempts ++ (now ∷ [])) d in
      let swept =
        if ltb reconnect_sweep_at (length noted) then sweep reconnect_window now noted else noted in
      (evict_oldest reconnect_max_accounts swept, true)

-- `_account_reconnect_budget_ok`
unfoldable pub account_reconnect_budget_ok : Text → Limit → ℕ → Attempts → Attempts × Bool
account_reconnect_budget_ok account unlimited now d = (d, true)
account_reconnect_budget_ok account (negative n) now d = (d, false)
account_reconnect_budget_ok account (amount limit) now d =
    let (kept, attempts) = fresh_account_reconnects account now d in
    reserve_reconnect account now limit attempts kept
