-- ===== src/Client/Warnings.antt =====
-- The warnings about an unreachable local app, src/chute/client.py.
use chute.Prelude.{ℕ, ◌≡◌, List, suc, [], ◌+◌, arith}
use chute.Client.{
  Line, note_dials, warned, Dial, note_dial, ◌∷◌, record_local_unreachable, recovered, unreachable,
  record_local_reachable, silent, LocalLog, reachable,
}
use chute.Prelude.Sums.{sum_of}

-- The failed dials that a line stands for.
abbrev pub failures_in : Line → ℕ
failures_in silent = 0
failures_in (warned n) = suc n
failures_in (recovered n) = n

abbrev pub failed_dials : List Dial → ℕ
failed_dials [] = 0
failed_dials (unreachable now ∷ dials) = suc (failed_dials dials)
failed_dials (reachable ∷ dials) = failed_dials dials

-- Over any dials of the local app, the failures that the log lines stand for and those still
-- suppressed are together the failed dials and those suppressed before.
pub note_dials-counts :
    (dials : List Dial) (l : LocalLog)
    → sum_of failures_in (note_dials dials l).1 + (note_dials dials l).0.suppressed
      ≡ l.suppressed + failed_dials dials
unfolding note_dials note_dial record_local_unreachable record_local_reachable
note_dials-counts [] l = omega arith
note_dials-counts (unreachable now ∷ dials) l =
    ground (arith, note_dials-counts dials (note_dial (unreachable now) l).0)
note_dials-counts (reachable ∷ dials) l =
    ground (arith, note_dials-counts dials (note_dial reachable l).0)
