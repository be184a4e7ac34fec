-- ===== src/Client/Waiting.antt =====
-- What an agent that is connected holds, src/chute/client.py: what `wait_until_ready` reads.
use chute.Control.Json.{integer, crash}
use chute.Prelude.{
  ℕ, ◌≡◌, ◌⊎◌, inl, ◌≤◌, refl, arith, ◌∙◌, inr, if◌then◌else◌, none, subst, sym, if_cases, [],
}
use chute.Client.{
  Tunnel, end_attempt, Text, true, Agent, Ending, some, Json, Loaded, Ready, clean, fatal,
  transient, Bool, ready_at, run_once, begin_attempt, serve_next, serve, ltb, List, Option, Contact,
  Turn, after_delay, false, closed_early, attempt_once, Next, ◌∷◌, replied, stop_if, Served,
  no_handshake, backoff, again, raised, finished,
}
use chute.Handshake.{ready_of_window, read_reply, ready_of_url, window_value}
use chute.Mux.Limits.{validate_flow_window, Checked, integer, valid, invalid}
use chute.Control.Json.{
  success, object, string, field_list, field_of, boolean, negative, real, array, null, value_error,
}
use chute.Prelude.Text.{codes}
use chute.Handshake.Agreement.{validate_flow_window-valid}

-- A public URL, and a window that is valid and not above the agent's own.
pub record HasUrl (t : Tunnel) : Type 0 where
  pub url : Text
  pub url_there : t.public_url ≡ some url
  pub window : ℕ
  pub window_there : t.negotiated ≡ some window
  pub window_valid : validate_flow_window (integer window) ≡ valid window
  pub window_kept : window ≤ t.agent.window

abbrev pub IsReady : Tunnel → Type 0
IsReady t = t.is_connected ≡ true → (t.has_ready_error ≡ true) ⊎ HasUrl t

window_valid_at :
    (a : Agent) (url : Text) (label : Json) (c : Checked ℕ) (ready : Ready)
    → ((n : ℕ) → c ≡ valid n → validate_flow_window (integer n) ≡ valid n)
    → ready_of_window a url label c ≡ some ready
    → (validate_flow_window (integer ready.window) ≡ valid ready.window) × (ready.window ≤ a.window)
unfolding ready_of_window
window_valid_at a url label (invalid e) ready v h = cc
window_valid_at a url label (valid n) ready v h =
    let same : record { public_url = url; subdomain = label; window = n } ≡ ready = ground arith in
    let test : ltb a.window n ≡ false = ground arith in
    (
      subst (λ r. validate_flow_window (integer r.window) ≡ valid r.window) same (v n refl),
      subst (λ r. r.window ≤ a.window) same (ground (arith, test)),
    )

IsWindowOf : Agent → Ready → Type 0
IsWindowOf a ready =
    (validate_flow_window (integer ready.window) ≡ valid ready.window) × (ready.window ≤ a.window)

ready_of_url-IsWindowOf :
    (a : Agent) (url : Json) (fields : List (Text × Json)) (ready : Ready)
    → ready_of_url a url fields ≡ some ready
    → IsWindowOf a ready
unfolding ready_of_url IsWindowOf
ready_of_url-IsWindowOf a (string url) members ready h =
    window_valid_at a url (field_of (codes "subdomain") members)
      (validate_flow_window (window_value (field_of (codes "flow_window") members))) ready
      (validate_flow_window-valid (window_value (field_of (codes "flow_window") members))) h
ready_of_url-IsWindowOf a null members ready h = cc
ready_of_url-IsWindowOf a (boolean b) members ready h = cc
ready_of_url-IsWindowOf a (integer n) members ready h = cc
ready_of_url-IsWindowOf a (negative n) members ready h = cc
ready_of_url-IsWindowOf a (real n) members ready h = cc
ready_of_url-IsWindowOf a (array items) members ready h = cc
ready_of_url-IsWindowOf a (object members) dict ready h = cc

some_of_if :
    (b : Bool) (o : Option Ready) (ready : Ready)
    → (if b then o else none) ≡ some ready
    → o ≡ some ready
some_of_if b o ready h = ground arith

-- A reply that the agent takes carries a valid window that is not above its own.
read_reply-IsWindowOf :
    (a : Agent) (reply : Loaded Json) (ready : Ready)
    → read_reply a reply ≡ some ready
    → IsWindowOf a ready
unfolding read_reply
read_reply-IsWindowOf a (success (object members)) ready h =
    ready_of_url-IsWindowOf a _ (field_list members) ready (some_of_if _ _ ready h)
read_reply-IsWindowOf a (success (string url)) ready h = cc
read_reply-IsWindowOf a (success null) ready h = cc
read_reply-IsWindowOf a (success (boolean b)) ready h = cc
read_reply-IsWindowOf a (success (integer n)) ready h = cc
read_reply-IsWindowOf a (success (negative n)) ready h = cc
read_reply-IsWindowOf a (success (real n)) ready h = cc
read_reply-IsWindowOf a (success (array items)) ready h = cc
read_reply-IsWindowOf a value_error ready h = cc
read_reply-IsWindowOf a crash ready h = cc

ready_at-IsReady :
    (o : Option Ready) (is_clean : Bool) (t : Tunnel)
    → ((ready : Ready) → o ≡ some ready → IsWindowOf t.agent ready)
    → IsReady t
    → IsReady (ready_at o is_clean t).0
unfolding ready_at IsWindowOf
ready_at-IsReady none is_clean t w h = h
ready_at-IsReady (some ready) is_clean t w h = λ c. inr (record {
  url = ready.public_url;
  url_there = refl;
  window = ready.window;
  window_there = refl;
  window_valid = (w ready refl).0;
  window_kept = (w ready refl).1;
})

run_once-IsReady : (contact : Contact) (t : Tunnel) → IsReady t → IsReady (run_once contact t).0
unfolding run_once
run_once-IsReady no_handshake t h = h
run_once-IsReady (closed_early code) t h = h
run_once-IsReady (replied reply is_clean) t h =
    ready_at-IsReady (read_reply t.agent reply) is_clean t (read_reply-IsWindowOf t.agent reply) h

-- Whatever changes neither the agent nor what it got keeps what it holds.
keep_ready :
    (t s : Tunnel)
    → s.agent ≡ t.agent
    → s.public_url ≡ t.public_url
    → s.negotiated ≡ t.negotiated
    → s.has_ready_error ≡ t.has_ready_error
    → (t.has_ready_error ≡ true) ⊎ HasUrl t
    → (s.has_ready_error ≡ true) ⊎ HasUrl s
keep_ready t s a u n r (inl e) = inl (r ∙ e)
keep_ready t s a u n r (inr h) = inr (record {
  url = h.url;
  url_there = u ∙ h.url_there;
  window = h.window;
  window_there = n ∙ h.window_there;
  window_valid = h.window_valid;
  window_kept = subst (λ g. h.window ≤ g.window) (sym a) h.window_kept;
})

end_attempt-IsReady : (o : Ending) (t : Tunnel) → IsReady t → IsReady (end_attempt o t).0
unfolding end_attempt
end_attempt-IsReady clean t h = λ c. keep_ready t _ refl refl refl refl (h c)
end_attempt-IsReady fatal t h = λ c. inl refl
end_attempt-IsReady transient t h = λ c. keep_ready t _ refl refl refl refl (h c)

attempt_once-IsReady : (turn : Turn) (t : Tunnel) → IsReady (attempt_once turn t).0
unfolding begin_attempt
attempt_once-IsReady turn t =
    let once = run_once turn.contact (begin_attempt t) in
    let ready = run_once-IsReady turn.contact (begin_attempt t) (λ c. absurd (ground (arith, c))) in
    end_attempt-IsReady once.1 (stop_if turn.stops_connected once.0)
      (λ c. keep_ready once.0 _ refl refl refl refl (ready c))

serve_next-IsReady :
    (next : Next) (turn : Turn) (go : Tunnel → Served) (t : Tunnel)
    → ((s : Tunnel) → IsReady s → IsReady (go s).tunnel)
    → IsReady t
    → IsReady (serve_next next turn go t).tunnel
unfolding serve_next after_delay
serve_next-IsReady again turn go t k h = k t h
serve_next-IsReady (backoff n) turn go t k h =
    k (stop_if turn.stops_waiting t) (λ c. keep_ready t _ refl refl refl refl (h c))
serve_next-IsReady raised turn go t k h = h
serve_next-IsReady finished turn go t k h = h

-- Through any turns of the reconnect loop, an agent that is marked connected holds an error or a
-- public URL with a valid window not above its own, when it did before.
pub serve-IsReady : (turns : List Turn) (t : Tunnel) → IsReady t → IsReady (serve turns t).tunnel
unfolding serve
serve-IsReady [] t h = h
serve-IsReady (turn ∷ turns) t h =
    if_cases (λ (r : Served). IsReady r.tunnel) t.is_stopped _ _ (λ e. h)
      (λ e.
        serve_next-IsReady (attempt_once turn t).1 turn (λ s. serve turns s) (attempt_once turn t).0
          (λ s k. serve-IsReady turns s k) (attempt_once-IsReady turn t))
