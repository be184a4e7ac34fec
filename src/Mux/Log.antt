-- ===== src/Mux/Log.antt =====
-- `Mux._log_event` of src/chute/mux.py: the table that limits the rate of failure logs. Times are
-- whole seconds of the monotonic clock. What is written to the log is not modelled, only whether.
use chute.Prelude.{
  ℕ, ◌+◌, ◌-◌, ◌≡◌, ◌↔◌, List, [], ◌∷◌, Bool, true, false, ◌&&◌, Option, none, some, arith, ltb,
  leb, ◌==◌, if◌then◌else◌, length,
}
use chute.Prelude.Text.{Text, text_beq, text_beq_iff}
use chute.Prelude.Dict.{Eq, get, put}
use chute.Mux.Limits.{mux_log_interval, mux_log_max_keys}

-- The reason and the stream id.
abbrev pub LogKey : Type 0
LogKey = Text × Option ℕ

abbrev pub id_beq : Option ℕ → Option ℕ → Bool
id_beq none none = true
id_beq none (some b) = false
id_beq (some a) none = false
id_beq (some a) (some b) = a == b

pub id_beq_iff : (a b : Option ℕ) → (id_beq a b ≡ true) ↔ (a ≡ b)
id_beq_iff none none = ground arith
id_beq_iff none (some b) = ground arith
id_beq_iff (some a) none = ground arith
id_beq_iff (some a) (some b) = ground arith

abbrev pub key_beq : LogKey → LogKey → Bool
key_beq (r, i) (s, j) = text_beq r s && id_beq i j

pub key_beq_iff : (a b : LogKey) → (key_beq a b ≡ true) ↔ (a ≡ b)
key_beq_iff (r, i) (s, j) = ground (arith, text_beq_iff r s, id_beq_iff i j)

instance abbrev pub key_eq : Eq LogKey
key_eq = record { beq = key_beq; beq_iff = key_beq_iff }

-- Per key the time of the last line and the number of events since that were not logged.
abbrev pub LogState : Type 0
LogState = List (LogKey × (ℕ × ℕ))

-- `while len(table) >= _MUX_LOG_MAX_KEYS: table.pop(next(iter(table)))`
unfoldable pub evict : ℕ → LogState → LogState
evict n [] = []
evict n (e ∷ t) = let rest = evict n t in if leb n (length (e ∷ t)) then rest else e ∷ t

-- The table afterwards, and whether a line is written.
unfoldable pub log_event : ℕ → Text → Option ℕ → LogState → LogState × Bool
unfolding evict
log_event now reason sid table = elim (get (reason, sid) table) [
  | none ↦ (put (reason, sid) (now, 0) (evict mux_log_max_keys table), true)
  | some (last, suppressed) ↦
      if ltb (now - last) mux_log_interval
      then (put (reason, sid) (last, suppressed + 1) table, false)
      else (put (reason, sid) (now, 0) table, true)
]
