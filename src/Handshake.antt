-- ===== src/Handshake.antt =====
-- The handshake: what `Tunnel._run_once` of src/chute/client.py sends and accepts, and what
-- `Server._handle_agent` of src/chute/server.py makes of it. `json.loads` gives back the value that
-- `json.dumps` was given; a hello that is late or that it refuses is `value_error` or `crash`.
pub mod Agreement
use chute.Prelude.{
  ℕ, Bool, Option, List, ◌==◌, true, some, none, if◌then◌else◌, false, ◌||◌, ◌∷◌, ◌&&◌, ltb, [],
  min,
}
use chute.Mux.Limits.{
  WindowValue, integer, negative, boolean, other, Checked, valid, invalid, validate_flow_window,
  flow_window_default,
}
use chute.Control.Json.{
  Json, null, boolean, integer, negative, real, string, array, object, field, Loaded, Fields,
  field_of, field_or, success, no_fields, field_list,
}
use chute.Prelude.Text.{Text, text_beq, codes}
use chute.Protocol.{version}
use mathlib.Core.Bool.{false}
use chute.Names.{valid_label}
use chute.Server.Claims.{lower}

-- Python's `==` between a JSON value and an `int` that is not below 0.
unfoldable pub equals_number : ℕ → Json → Bool
equals_number n (integer m) = m == n
equals_number n (boolean b) = (if b then 1 else 0) == n
equals_number n (real (some m)) = m == n
equals_number n _ = false

unfoldable pub equals_text : Text → Json → Bool
equals_text t (string s) = text_beq s t
equals_text t _ = false

unfoldable pub window_value : Json → WindowValue
window_value (integer n) = integer n
window_value (negative n) = negative n
window_value (boolean b) = boolean b
window_value _ = other

-- `Tunnel`: what its handshake reads.
pub record Agent : Type 0 where
  pub token : Text
  pub scheme : Text
  pub window : ℕ
  pub subdomain : Option Text

unfoldable pub is_scheme : Text → Bool
is_scheme s = text_beq s (codes "http") || text_beq s (codes "https")

unfoldable pub is_subdomain : Option Text → Bool
is_subdomain none = true
is_subdomain (some label) = valid_label (lower label)

-- `subdomain.lower() if subdomain else None`
unfoldable pub lower_subdomain : Option Text → Option Text
lower_subdomain none = none
lower_subdomain (some []) = none
lower_subdomain (some (c ∷ cs)) = some (lower (c ∷ cs))

unfoldable pub agent_of_window : Text → Text → Option Text → Checked ℕ → Option Agent
agent_of_window token scheme subdomain (invalid e) = none
agent_of_window token scheme subdomain (valid n) =
    some
      (record { token = token; scheme = scheme; window = n; subdomain = lower_subdomain subdomain })

-- `Tunnel.__init__`, with `none` for a `ValueError`
unfoldable pub new_agent : (token scheme : Text) → Option Text → WindowValue → Option Agent
new_agent token scheme subdomain window =
    if is_scheme scheme && is_subdomain subdomain
    then agent_of_window token scheme subdomain (validate_flow_window window)
    else none

unfoldable pub subdomain_field : Option Text → Fields
subdomain_field none = no_fields
subdomain_field (some []) = no_fields
subdomain_field (some (c ∷ cs)) = field (codes "subdomain") (string (c ∷ cs)) no_fields

-- `auth`
unfoldable pub hello_of : Agent → Json
hello_of a = object (
    field (codes "type") (string (codes "auth")) (
      field (codes "token") (string a.token) (
        field (codes "scheme") (string a.scheme) (
          field (codes "flow_window") (integer a.window)
            (field (codes "v") (integer version) (subdomain_field a.subdomain))))))

-- A result, or the code that the relay closes the connection with.
pub data Answer {ℓ} (A : Type ℓ) : Type ℓ where
  accepted : A → Answer A
  closed : ℕ → Answer A

infixl 5 ◌>>=◌ ◌>>◌
abbrev pub ◌>>=◌ {ℓ κ} : {A : Type ℓ} {B : Type κ} → Answer A → (A → Answer B) → Answer B
accepted a >>= f = f a
closed code >>= f = closed code

abbrev pub ◌>>◌ {ℓ} : {B : Type ℓ} → Answer (Unit {0}) → Answer B → Answer B
m >> k = m >>= λ _. k

-- `_BadHandshake` closes with 4000, another protocol version with 4004, `_LabelError` with 4002.
abbrev pub require : ℕ → Bool → Answer (Unit {0})
require code true = accepted tt
require code false = closed code

unfoldable pub text_or_close : Json → Answer Text
text_or_close (string s) = accepted s
text_or_close _ = closed 4000

-- `_token_from_hello`
unfoldable pub token_from_hello : List (Text × Json) → Answer Text
token_from_hello hello = do
  require 4000 (equals_text (codes "auth") (field_of (codes "type") hello))
  text_or_close (field_of (codes "token") hello)

unfoldable pub label_or_close : Json → Answer (Option Text)
label_or_close null = accepted none
label_or_close (string raw) = do require 4002 (valid_label (lower raw)); accepted (some (lower raw))
label_or_close _ = closed 4000

-- `_requested_subdomain_from_hello`
abbrev pub requested_subdomain_from_hello : List (Text × Json) → Answer (Option Text)
requested_subdomain_from_hello hello = label_or_close (field_of (codes "subdomain") hello)

-- `_scheme_from_hello`
unfoldable pub scheme_from_hello : List (Text × Json) → Answer Text
scheme_from_hello hello = do
  raw ← text_or_close (field_or (codes "scheme") (string (codes "http")) hello)
  require 4000 (is_scheme raw)
  accepted raw

unfoldable pub window_or_close : Checked ℕ → Answer ℕ
window_or_close (valid n) = accepted n
window_or_close (invalid e) = closed 4000

-- `_flow_window_from_hello`
unfoldable pub flow_window_from_hello : List (Text × Json) → Answer ℕ
flow_window_from_hello hello = window_or_close (
    validate_flow_window
      (window_value (field_or (codes "flow_window") (integer flow_window_default) hello)))

unfoldable pub dict_or_close : Loaded Json → Answer (List (Text × Json))
dict_or_close (success (object fields)) = accepted (field_list fields)
dict_or_close _ = closed 4000

-- What `_handle_agent` finds in a hello.
unfoldable pub read_hello : Loaded Json → Answer Agent
read_hello received = do
  hello ← dict_or_close received
  token ← token_from_hello hello
  require 4004 (equals_number version (field_of (codes "v") hello))
  subdomain ← requested_subdomain_from_hello hello
  scheme ← scheme_from_hello hello
  window ← flow_window_from_hello hello
  accepted (record { token = token; scheme = scheme; window = window; subdomain = subdomain })

-- The window that the relay settles on.
unfoldable pub negotiate : ℕ → ℕ → ℕ
negotiate agent_window own = min agent_window own

-- `ready`, where `label` is `none` on the default route
unfoldable pub ready_of : Text → Option Text → ℕ → Json
ready_of url label window = object (
    field (codes "type") (string (codes "ready")) (
      field (codes "public_url") (string url) (
        field (codes "subdomain") (elim label [ none ↦ null | some l ↦ string l ])
          (field (codes "flow_window") (integer window)
            (field (codes "v") (integer version) no_fields)))))

-- What the agent keeps of a reply.
pub record Ready : Type 0 where
  pub public_url : Text
  pub subdomain : Json
  pub window : ℕ

unfoldable pub ready_of_window : Agent → Text → Json → Checked ℕ → Option Ready
ready_of_window agent url label (invalid e) = none
ready_of_window agent url label (valid n) =
    if ltb agent.window n
    then none
    else some (record { public_url = url; subdomain = label; window = n })

unfoldable pub ready_of_url : Agent → Json → List (Text × Json) → Option Ready
ready_of_url agent (string url) reply =
    ready_of_window agent url (field_of (codes "subdomain") reply)
      (validate_flow_window (window_value (field_of (codes "flow_window") reply)))
ready_of_url agent _ reply = none

-- The checks of `_run_once` on a reply; `none` is a `_FatalError`.
unfoldable pub read_reply : Agent → Loaded Json → Option Ready
read_reply agent (success (object fields)) =
    let reply = field_list fields in
    if equals_text (codes "ready") (field_of (codes "type") reply)
      && equals_number version (field_of (codes "v") reply)
    then ready_of_url agent (field_of (codes "public_url") reply) reply
    else none
read_reply agent _ = none
