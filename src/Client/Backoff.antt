-- ===== src/Client/Backoff.antt =====
-- The delays between the agent's attempts, src/chute/client.py.
use chute.Prelude.{
  ℕ, ◌≡◌, List, All, ◌+◌, [], none, refl, ap, arith, if◌then◌else◌, subst, sym, if_cases, ◌∙◌, ◌≤◌,
  ◌^◌, suc, zero, ◌⊎◌, inl, inr,
}
use chute.Handshake.{Agent}
use chute.Client.{
  Tunnel, ready_at, run_once, end_attempt, serve, Turn, Option, begin_attempt, serve_next,
  after_delay, transient, ◌∷◌, Ready, Contact, Ending, false, backoff_base, Bool, closed_early,
  Served, some, replied, running, read_reply, stop_if, no_handshake, finished, backoff, clean,
  fatal, min,
}

-- A turn whose connection fails in a way that may be retried, and in which nobody asks to stop.
abbrev pub IsTransient : Agent → Turn → Type 0
IsTransient agent turn =
    ((t : Tunnel) → t.agent ≡ agent → (run_once turn.contact t).1 ≡ transient)
    × (turn.stops_connected ≡ false)
    × (turn.stops_waiting ≡ false)

-- The delays of failures in a row, after `attempt` of them.
abbrev pub backoffs : ℕ → ℕ → List Turn → List ℕ
backoffs max_backoff attempt [] = []
backoffs max_backoff attempt (turn ∷ turns) =
    backoff_base max_backoff (attempt + 1) ∷ backoffs max_backoff (attempt + 1) turns

-- The delay after `n` failures in a row: doubled for each of the first six of them, so 64 at most,
-- and never above `max_backoff`, which takes the place of what is above it.
pub record IsDelay (max_backoff n d : ℕ) : Type 0 where
  pub is_capped : d ≤ max_backoff
  pub is_bounded : d ≤ 64
  pub is_doubled : n ≤ 6 → 2 ^ n ≤ max_backoff → d ≡ 2 ^ n
  pub is_steady : 6 ≤ n → 64 ≤ max_backoff → d ≡ 64
  pub is_cap : max_backoff ≤ 64 → max_backoff ≤ 2 ^ n → d ≡ max_backoff

abbrev pub AreDelays : ℕ → ℕ → List Turn → List ℕ → Type 0
AreDelays max_backoff n [] [] = Unit
AreDelays max_backoff n [] (d ∷ delays) = ⊥
AreDelays max_backoff n (turn ∷ turns) [] = ⊥
AreDelays max_backoff n (turn ∷ turns) (d ∷ delays) =
    IsDelay max_backoff (n + 1) d × AreDelays max_backoff (n + 1) turns delays

pow_le_64 : (n : ℕ) → n ≤ 6 → 2 ^ n ≤ 64
pow_le_64 zero h = omega arith
pow_le_64 (suc zero) h = omega arith
pow_le_64 (suc (suc zero)) h = omega arith
pow_le_64 (suc (suc (suc zero))) h = omega arith
pow_le_64 (suc (suc (suc (suc zero)))) h = omega arith
pow_le_64 (suc (suc (suc (suc (suc zero))))) h = omega arith
pow_le_64 (suc (suc (suc (suc (suc (suc zero)))))) h = omega arith
pow_le_64 (suc (suc (suc (suc (suc (suc (suc n))))))) h = absurd (omega (arith, h))

le_cases : (n : ℕ) → (n ≤ 6) ⊎ (6 ≤ n)
le_cases n = ground arith

backoff_base-IsDelay : (max_backoff n : ℕ) → IsDelay max_backoff n (backoff_base max_backoff n)
backoff_base-IsDelay max_backoff n =
    let top : 2 ^ min n 6 ≤ 64 = pow_le_64 (min n 6) (omega arith) in
    let few : n ≤ 6 → 2 ^ min n 6 ≡ 2 ^ n =
      λ h. let e : min n 6 ≡ n = omega (arith, h) in ap (λ k. 2 ^ k) e in
    let many : 6 ≤ n → 2 ^ min n 6 ≡ 64 =
      λ h. let e : min n 6 ≡ 6 = omega (arith, h) in ap (λ k. 2 ^ k) e in
    record {
      is_capped = omega arith;
      is_bounded = omega (arith, top);
      is_doubled = λ h k. omega (arith, few h, k);
      is_steady = λ h k. omega (arith, many h, k);
      is_cap = λ h k. elim (le_cases n) [
        | inl e ↦ omega (arith, few e, k)
        | inr e ↦ omega (arith, many e, h)
      ];
    }

backoffs-AreDelays :
    (max_backoff n : ℕ) (turns : List Turn)
    → AreDelays max_backoff n turns (backoffs max_backoff n turns)
backoffs-AreDelays max_backoff n [] = tt
backoffs-AreDelays max_backoff n (turn ∷ turns) =
    (backoff_base-IsDelay max_backoff (n + 1), backoffs-AreDelays max_backoff (n + 1) turns)

-- What a turn of the loop carries on to the next.
abbrev Keeps : Tunnel → Tunnel → Type 0
Keeps t s =
    (s.is_stopped ≡ t.is_stopped)
    × (s.attempt ≡ t.attempt)
    × (s.max_backoff ≡ t.max_backoff)
    × (s.agent ≡ t.agent)

ready_at-Keeps :
    (o : Option Ready) (is_clean : Bool) (t : Tunnel) → Keeps t (ready_at o is_clean t).0
unfolding ready_at
ready_at-Keeps none is_clean t = (refl, refl, refl, refl)
ready_at-Keeps (some ready) is_clean t = (refl, refl, refl, refl)

run_once-Keeps : (contact : Contact) (t : Tunnel) → Keeps t (run_once contact (begin_attempt t)).0
unfolding run_once begin_attempt
run_once-Keeps no_handshake t = (refl, refl, refl, refl)
run_once-Keeps (closed_early code) t = (refl, refl, refl, refl)
run_once-Keeps (replied reply is_clean) t =
    ready_at-Keeps (read_reply t.agent reply) is_clean (begin_attempt t)

serve_next-transient :
    (o : Ending) (s : Tunnel) (turn : Turn) (go : Tunnel → Served)
    → o ≡ transient
    → s.is_stopped ≡ false
    → serve_next (end_attempt o s).1 turn go (end_attempt o s).0
      ≡ after_delay
          (backoff_base s.max_backoff (s.attempt + 1))
          (go (stop_if turn.stops_waiting (record s { attempt = s.attempt + 1 })))
unfolding end_attempt serve_next
serve_next-transient clean s turn go h k = cc
serve_next-transient fatal s turn go h k = cc
serve_next-transient transient s turn go h k =
    ap
      (λ b.
        serve_next (if b then finished else backoff (backoff_base s.max_backoff (s.attempt + 1)))
          turn go (record s { attempt = s.attempt + 1 }))
      k

serve-delays :
    (turns : List Turn) (t : Tunnel)
    → All (IsTransient t.agent) turns
    → t.is_stopped ≡ false
    → ((serve turns t).end ≡ running)
      × ((serve turns t).delays ≡ backoffs t.max_backoff t.attempt turns)
unfolding serve after_delay begin_attempt
serve-delays [] t h s = (refl, refl)
serve-delays (turn ∷ turns) t h s =
    let once = run_once turn.contact (begin_attempt t) in
    let kept = run_once-Keeps turn.contact t in
    let asked : Tunnel = stop_if turn.stops_connected once.0 in
    let unstopped : asked.is_stopped ≡ false = ground (arith, kept.0, h.0.1, s) in
    let next : Tunnel = stop_if turn.stops_waiting (record asked { attempt = asked.attempt + 1 }) in
    let step =
      serve_next-transient once.1 asked turn (λ u. serve turns u) (h.0.0 (begin_attempt t) refl)
        unstopped in
    let rest =
      serve-delays turns next (subst (λ a. All (IsTransient a) turns) (sym kept.3) h.1)
        (ground (arith, unstopped, h.0.2)) in
    if_cases
      (λ (r : Served).
        (r.end ≡ running) × (r.delays ≡ backoffs t.max_backoff t.attempt (turn ∷ turns)))
      t.is_stopped _ _ (λ e. cc)
      (λ e.
        subst
          (λ (r : Served).
            (r.end ≡ running) × (r.delays ≡ backoffs t.max_backoff t.attempt (turn ∷ turns)))
          (sym step)
          (
            rest.0,
            ap (λ d. backoff_base asked.max_backoff (asked.attempt + 1) ∷ d) rest.1
                ∙ ap (λ m. backoffs m asked.attempt (turn ∷ turns)) kept.2
                ∙ ap (λ n. backoffs t.max_backoff n (turn ∷ turns)) kept.1,
          ))

-- While every connection fails in a way that may be retried and nobody asks to stop, the loop goes
-- on, and the base of each delay doubles for each of the first six failures, is 64 at most, and
-- never goes above max_backoff, which takes the place of what would.
pub serve-backoffs :
    (turns : List Turn) (t : Tunnel)
    → All (IsTransient t.agent) turns
    → t.is_stopped ≡ false
    → ((serve turns t).end ≡ running)
      × AreDelays t.max_backoff t.attempt turns (serve turns t).delays
serve-backoffs turns t h s =
    let served = serve-delays turns t h s in
    (
      served.0,
      subst (AreDelays t.max_backoff t.attempt turns) (sym served.1)
          (backoffs-AreDelays t.max_backoff t.attempt turns),
    )
