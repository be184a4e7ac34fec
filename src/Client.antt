-- ===== src/Client.antt =====
-- `Tunnel` of src/chute/client.py: the reconnect loop `serve_forever` around `_run_once`, and the
-- warnings about a local app that cannot be reached. How a connection goes is an argument of each
-- turn of the loop. A delay stands for its base: the code waits a random part of it, from a half on.
pub mod Backoff
pub mod Waiting
pub mod Warnings
use chute.Prelude.{
  ℕ, Option, false, if◌then◌else◌, min, true, Bool, List, ◌∷◌, some, none, ◌^◌, ◌+◌, ◌||◌, ltb,
  ◌==◌, [],
}
use chute.Control.Json.{Json, null, Loaded}
use chute.Handshake.{Agent, Ready, read_reply}
use chute.Prelude.Text.{Text}

pub record Tunnel : Type 0 where
  pub agent : Agent
  pub max_backoff : ℕ
  pub public_url : Option Text
  pub subdomain : Json
  pub negotiated : Option ℕ
  pub has_ready_error : Bool
  pub is_stopped : Bool
  pub is_connected : Bool
  pub attempt : ℕ

-- How one connection goes: no handshake, a close frame instead of a reply, or a reply and then the
-- end of the mux, with an exception or without.
pub data Contact : Type 0 where
  no_handshake : Contact
  closed_early : Option ℕ → Contact
  replied : Loaded Json → (is_clean : Bool) → Contact

-- How `_run_once` ends: it returns, it raises `_FatalError`, or any other exception.
pub data Ending : Type 0 where
  clean fatal transient : Ending

-- `_FATAL_CLOSE_CODES`
unfoldable pub is_fatal_code : Option ℕ → Bool
is_fatal_code none = false
is_fatal_code (some code) = (code == 4001) || (code == 4002) || (code == 4004)

-- The assignments at the top of a turn.
unfoldable pub begin_attempt : Tunnel → Tunnel
begin_attempt t = record t {
  is_connected = false;
  has_ready_error = false;
  public_url = none;
  subdomain = null;
  negotiated = none;
}

unfoldable pub ready_at : Option Ready → Bool → Tunnel → Tunnel × Ending
ready_at none is_clean t = (t, fatal)
ready_at (some ready) is_clean t = (
  record t {
    public_url = some ready.public_url;
    has_ready_error = false;
    subdomain = ready.subdomain;
    negotiated = some ready.window;
    is_connected = true;
  },
  if is_clean then clean else transient,
)

-- `_run_once`
unfoldable pub run_once : Contact → Tunnel → Tunnel × Ending
run_once no_handshake t = (t, transient)
run_once (closed_early code) t = (t, if is_fatal_code code then fatal else transient)
run_once (replied reply is_clean) t = ready_at (read_reply t.agent reply) is_clean t

-- What the loop does next: another turn at once or after a delay, or it is over.
pub data Next : Type 0 where
  again : Next
  backoff : ℕ → Next
  raised finished : Next

abbrev pub backoff_base : ℕ → ℕ → ℕ
backoff_base max_backoff attempt = min max_backoff (2 ^ min attempt 6)

-- The handlers around `_run_once`
unfoldable pub end_attempt : Ending → Tunnel → Tunnel × Next
end_attempt clean t = (record t { attempt = 0 }, again)
end_attempt fatal t = (record t { has_ready_error = true; is_connected = true }, raised)
end_attempt transient t = (
  record t { attempt = t.attempt + 1 },
  if t.is_stopped then finished else backoff (backoff_base t.max_backoff (t.attempt + 1)),
)

-- A turn, with whether the agent is asked to stop while it is connected and while it waits.
pub record Turn : Type 0 where
  pub contact : Contact
  pub stops_connected : Bool
  pub stops_waiting : Bool

abbrev pub stop_if : Bool → Tunnel → Tunnel
stop_if b t = record t { is_stopped = t.is_stopped || b }

abbrev pub attempt_once : Turn → Tunnel → Tunnel × Next
attempt_once turn t =
    let once = run_once turn.contact (begin_attempt t) in
    end_attempt once.1 (stop_if turn.stops_connected once.0)

pub data End : Type 0 where
  running failed stopped : End

-- The delays of the turns, and how the loop stands after them.
pub record Served : Type 0 where
  pub tunnel : Tunnel
  pub delays : List ℕ
  pub end : End

unfoldable pub after_delay : ℕ → Served → Served
after_delay n served = record served { delays = n ∷ served.delays }

-- What follows a turn; `go` is the loop on the turns after it.
unfoldable pub serve_next : Next → Turn → (Tunnel → Served) → Tunnel → Served
serve_next again turn go t = go t
serve_next (backoff n) turn go t = after_delay n (go (stop_if turn.stops_waiting t))
serve_next raised turn go t = record { tunnel = t; delays = []; end = failed }
serve_next finished turn go t = record { tunnel = t; delays = []; end = stopped }

-- `serve_forever`, with `running` where the turns end first
unfoldable pub serve : List Turn → Tunnel → Served
serve [] t = record { tunnel = t; delays = []; end = running }
serve (turn ∷ turns) t =
    if t.is_stopped
    then record { tunnel = t; delays = []; end = stopped }
    else serve_next (attempt_once turn t).1 turn (λ s. serve turns s) (attempt_once turn t).0

abbrev pub unreachable_log_interval : ℕ
unreachable_log_interval = 60

pub record LocalLog : Type 0 where
  pub next_log : ℕ
  pub suppressed : ℕ

-- What is logged, with the number of suppressed warnings in it.
pub data Line : Type 0 where
  silent : Line
  warned recovered : ℕ → Line

-- `_record_local_unreachable`
unfoldable pub record_local_unreachable : ℕ → LocalLog → LocalLog × Line
record_local_unreachable now l =
    if ltb now l.next_log
    then (record l { suppressed = l.suppressed + 1 }, silent)
    else (record { next_log = now + unreachable_log_interval; suppressed = 0 }, warned l.suppressed)

-- `_record_local_reachable`
unfoldable pub record_local_reachable : LocalLog → LocalLog × Line
record_local_reachable l = (
  record { next_log = 0; suppressed = 0 },
  if l.suppressed == 0 then silent else recovered l.suppressed,
)

-- The dials of the local app in order: failed at a time, or not.
pub data Dial : Type 0 where
  unreachable : ℕ → Dial
  reachable : Dial

unfoldable pub note_dial : Dial → LocalLog → LocalLog × Line
note_dial (unreachable now) l = record_local_unreachable now l
note_dial reachable l = record_local_reachable l

unfoldable pub note_dials : List Dial → LocalLog → LocalLog × List Line
note_dials [] l = (l, [])
note_dials (dial ∷ dials) l =
    let noted = note_dial dial l in
    let rest = note_dials dials noted.0 in (rest.0, noted.1 ∷ rest.1)
