-- ===== src/Server/RateLimits/Bounds.antt =====
-- What the two sliding-window limiters of src/chute/server.py let through, and the size of their
-- tables.
use chute.Prelude.{
  ℕ, List, some, true, [], ◌∷◌, ◌≡◌, ◌≤◌, ◌<◌, ◌↔◌, ◌+◌, ◌-◌, arith, length, if◌then◌else◌, refl,
  ltb,
}
use chute.Prelude.Text.{Text, text_eq}
use chute.Server.RateLimits.{
  fresh_attempts, auth_rate_ok, evict_oldest, record_auth_fail, Attempts, auth_fail_window,
  auth_fail_max_ips, attempts_of, auth_fail_max, fresh_attempts,
}

-- How many of the attempts are inside the window.
abbrev pub count_fresh : ℕ → ℕ → List ℕ → ℕ
count_fresh window now [] = 0
count_fresh window now (t ∷ ts) =
    let rest = count_fresh window now ts in if ltb (now - t) window then rest + 1 else rest

length-fresh_attempts :
    (window now : ℕ) (ts : List ℕ)
    → length (fresh_attempts window now ts) ≡ count_fresh window now ts
unfolding fresh_attempts
length-fresh_attempts window now [] = refl
length-fresh_attempts window now (t ∷ ts) = ground (arith, length-fresh_attempts window now ts)

-- A source with a key may try again exactly while fewer than five of its failures lie within the
-- last 60 seconds.
pub auth_rate_ok_lem :
    (now : ℕ) (key : Text) (fails : Attempts)
    → ((auth_rate_ok now (some key) fails).1 ≡ true)
      ↔ (count_fresh auth_fail_window now (attempts_of key fails) < auth_fail_max)
unfolding auth_rate_ok
auth_rate_ok_lem now key fails =
    ground (arith, length-fresh_attempts auth_fail_window now (attempts_of key fails))

pub length-evict_oldest : (n : ℕ) (d : Attempts) → length (evict_oldest n d) ≤ n
unfolding evict_oldest
length-evict_oldest n [] = omega arith
length-evict_oldest n (e ∷ d) = ground (arith, length-evict_oldest n d)

-- Whatever failure is recorded, at most 65,536 sources are remembered.
pub length-record_auth_fail :
    (now : ℕ) (key : Text) (fails : Attempts)
    → length (record_auth_fail now (some key) fails) ≤ auth_fail_max_ips
unfolding record_auth_fail
length-record_auth_fail now key fails = length-evict_oldest auth_fail_max_ips _
