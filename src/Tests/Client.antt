-- ===== src/Tests/Client.antt =====
-- The handshake and the agent's loop at concrete inputs, src/chute/client.py and
-- src/chute/server.py.
use chute.Prelude.{ℕ, ◌≡◌, List, none, arith, refl, some, false, All, ◌∷◌, true, [], ◌+◌, ◌≤◌}
use chute.Mux.Limits.{integer, validate_flow_window, valid}
use chute.Handshake.{
  Agent, new_agent, read_hello, agent_of_window, is_scheme, hello_of, ready_of, is_subdomain,
  accepted, lower_subdomain, read_reply, negotiate, ready_of_url, ready_of_window, equals_text,
  equals_number, window_value,
}
use chute.Client.{
  Tunnel, Contact, serve, run_once, Turn, replied, serve_next, is_fatal_code, running, Dial,
  no_handshake, after_delay, unreachable, note_dials, closed_early, end_attempt, reachable,
  begin_attempt, ready_at, failed,
}
use chute.Client.Waiting.{IsReady, serve-IsReady}
use chute.Prelude.Sums.{sum_of}
use chute.Prelude.Text.{codes, text_beq}
use chute.Control.Json.{success, null, string}
use chute.Client.Warnings.{failures_in, note_dials-counts}
use chute.Client.Backoff.{IsTransient, serve-backoffs, AreDelays}
use chute.Server.Claims.{lower_char}
use chute.Names.{valid_label, match_tail, is_label_char, is_alnum}
use chute.Handshake.Agreement.{new_agent-agrees}
use chute.Prelude.Dict.{get}

abbrev asked_window : ℕ
asked_window = 65536

abbrev agent : Agent
agent = record {
  token = codes "secret";
  scheme = codes "https";
  window = 65536;
  subdomain = some (codes "demo");
}

agent_run :
    new_agent (codes "secret") (codes "https") (some (codes "Demo")) (integer asked_window)
    ≡ some agent
unfolding new_agent agent_of_window is_scheme is_subdomain lower_subdomain lower_char
    validate_flow_window valid_label match_tail is_label_char is_alnum text_beq
agent_run = refl

own_window : validate_flow_window (integer 4096) ≡ valid 4096
unfolding validate_flow_window
own_window = refl

new_agent-agrees_example :
    (read_hello (success (hello_of agent)) ≡ accepted agent)
    × (read_reply agent (
          success
            (ready_of (codes "https://demo.example") (some (codes "demo")) (negotiate 65536 4096)))
        ≡ some (record {
          public_url = codes "https://demo.example";
          subdomain = string (codes "demo");
          window = negotiate 65536 4096;
        }))
    × (negotiate 65536 4096 ≤ 65536)
    × (negotiate 65536 4096 ≤ 4096)
new_agent-agrees_example =
    new_agent-agrees (codes "secret") (codes "https") (some (codes "Demo")) (integer asked_window)
      agent 4096 agent_run own_window (codes "https://demo.example") (some (codes "demo"))

abbrev new_tunnel : Tunnel
new_tunnel = record {
  agent = agent;
  max_backoff = 30;
  public_url = none;
  subdomain = null;
  negotiated = none;
  has_ready_error = false;
  is_stopped = false;
  is_connected = false;
  attempt = 0;
}

abbrev turn_of : Contact → Turn
turn_of contact = record { contact = contact; stops_connected = false; stops_waiting = false }

abbrev connects : Contact
connects =
    replied (success (ready_of (codes "https://demo.example") (some (codes "demo")) 4096)) true

abbrev trials : List Turn
trials =
    turn_of no_handshake
    ∷ turn_of (closed_early (some 1013))
    ∷ turn_of connects
    ∷ turn_of (closed_early (some 4001))
    ∷ turn_of connects
    ∷ []

trials_run : (serve trials new_tunnel).delays ≡ 2 ∷ 4 ∷ []
unfolding serve serve_next after_delay end_attempt run_once begin_attempt ready_at is_fatal_code
    read_reply ready_of ready_of_url ready_of_window equals_text equals_number window_value
    validate_flow_window get text_beq
trials_run = refl

trials_end : (serve trials new_tunnel).end ≡ failed
unfolding serve serve_next after_delay end_attempt run_once begin_attempt ready_at is_fatal_code
    read_reply ready_of ready_of_url ready_of_window equals_text equals_number window_value
    validate_flow_window get text_beq
trials_end = refl

new_tunnel-IsReady : IsReady new_tunnel
new_tunnel-IsReady c = absurd (ground (arith, c))

serve-IsReady_example : IsReady (serve trials new_tunnel).tunnel
serve-IsReady_example = serve-IsReady trials new_tunnel new_tunnel-IsReady

abbrev outage : List Turn
outage = turn_of no_handshake ∷ turn_of (closed_early (some 1013)) ∷ turn_of no_handshake ∷ []

outage-IsTransient : All (IsTransient agent) outage
unfolding run_once is_fatal_code
outage-IsTransient =
    (((λ t h. refl), refl, refl), (((λ t h. refl), refl, refl), (((λ t h. refl), refl, refl), tt)))

serve-backoffs_example :
    ((serve outage new_tunnel).end ≡ running)
    × AreDelays 30 0 outage (serve outage new_tunnel).delays
serve-backoffs_example = serve-backoffs outage new_tunnel outage-IsTransient refl

abbrev dials : List Dial
dials =
    unreachable 100
    ∷ unreachable 110
    ∷ unreachable 120
    ∷ unreachable 170
    ∷ unreachable 180
    ∷ reachable
    ∷ []

note_dials-counts_example :
    sum_of failures_in (note_dials dials (record { next_log = 0; suppressed = 0 })).1
      + (note_dials dials (record { next_log = 0; suppressed = 0 })).0.suppressed
    ≡ 0 + 5
note_dials-counts_example = note_dials-counts dials (record { next_log = 0; suppressed = 0 })
