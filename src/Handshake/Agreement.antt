-- ===== src/Handshake/Agreement.antt =====
-- The handshake of src/chute/client.py with src/chute/server.py, from both sides.
use chute.Prelude.Text.{text_beq}
use chute.Prelude.Dict.{get}
use chute.Server.Claims.{lower_char}
use chute.Prelude.{ℕ, ◌≡◌, Option, arith, none, [], ◌≤◌, refl, subst, eq_of_some_eq, ap, ◌∙◌}
use chute.Server.Claims.{lower_char}
use chute.Prelude.Text.{Text}
use chute.Mux.Limits.{validate_flow_window, other}
use chute.Handshake.{
  Agent, is_subdomain, agent_of_window, new_agent, read_hello, read_reply, lower, WindowValue, some,
  is_scheme, lower_subdomain, hello_of, ready_of, valid, ◌∷◌, true, dict_or_close, ready_of_url,
  integer, valid_label, token_from_hello, ready_of_window, negative, equals_text, boolean,
  equals_number, label_or_close, window_value, scheme_from_hello, text_or_close, text_beq,
  flow_window_from_hello, window_or_close, subdomain_field, Checked, success, invalid, accepted,
  null, string, Answer, field_of, ◌>>=◌, codes, field_list, require, ◌>>◌, negotiate,
}
use chute.Prelude.Dict.{get}

lower_char-lower_char : (c : ℕ) → lower_char (lower_char c) ≡ lower_char c
unfolding lower_char
lower_char-lower_char c = ground arith

lower-lower : (s : Text) → lower (lower s) ≡ lower s
lower-lower [] = refl
lower-lower (c ∷ cs) =
    ap (λ d. d ∷ lower (lower cs)) (lower_char-lower_char c)
    ∙ ap (λ t. lower_char c ∷ t) (lower-lower cs)

pub validate_flow_window-valid :
    (v : WindowValue) (n : ℕ)
    → validate_flow_window v ≡ valid n
    → validate_flow_window (integer n) ≡ valid n
unfolding validate_flow_window
validate_flow_window-valid (integer m) n h = ground arith
validate_flow_window-valid (negative m) n h = ground arith
validate_flow_window-valid (boolean b) n h = ground arith
validate_flow_window-valid other n h = ground arith

abbrev IsLowered : Option Text → Type 0
IsLowered none = Unit
IsLowered (some []) = ⊥
IsLowered (some (c ∷ cs)) = (valid_label (c ∷ cs) ≡ true) × (lower (c ∷ cs) ≡ c ∷ cs)

-- What `Tunnel.__init__` lets through.
record IsAgent (a : Agent) : Type 0 where
  is_scheme_known : is_scheme a.scheme ≡ true
  is_window_valid : validate_flow_window (integer a.window) ≡ valid a.window
  is_label : IsLowered a.subdomain

IsLowered-lower_subdomain :
    (o : Option Text) → is_subdomain o ≡ true → IsLowered (lower_subdomain o)
unfolding is_subdomain lower_subdomain
IsLowered-lower_subdomain none h = tt
IsLowered-lower_subdomain (some []) h = tt
IsLowered-lower_subdomain (some (c ∷ cs)) h = (h, lower-lower (c ∷ cs))

agent_of_window-IsAgent :
    (token scheme : Text) (o : Option Text) (c : Checked ℕ) (a : Agent)
    → is_scheme scheme ≡ true
    → is_subdomain o ≡ true
    → ((n : ℕ) → c ≡ valid n → validate_flow_window (integer n) ≡ valid n)
    → agent_of_window token scheme o c ≡ some a
    → IsAgent a
unfolding agent_of_window
agent_of_window-IsAgent token scheme o (invalid e) a s l v h = cc
agent_of_window-IsAgent token scheme o (valid n) a s l v h =
    subst IsAgent (eq_of_some_eq h) (record {
      is_scheme_known = s;
      is_window_valid = v n refl;
      is_label = IsLowered-lower_subdomain o l;
    })

new_agent-IsAgent :
    (token scheme : Text) (o : Option Text) (v : WindowValue) (a : Agent)
    → new_agent token scheme o v ≡ some a
    → IsAgent a
unfolding new_agent
new_agent-IsAgent token scheme o v a h =
    agent_of_window-IsAgent token scheme o (validate_flow_window v) a (ground arith) (ground arith)
      (validate_flow_window-valid v) (ground arith)

>>=-accepted {ℓ κ} :
    {A : Type ℓ} {B : Type κ} {m : Answer A} {a : A} (f : A → Answer B)
    → m ≡ accepted a
    → (m >>= f) ≡ f a
>>=-accepted f h = ap (λ n. n >>= f) h

label_or_close-subdomain_field :
    (o : Option Text)
    → IsLowered o
    → label_or_close (field_of (codes "subdomain") (field_list (subdomain_field o))) ≡ accepted o
unfolding label_or_close subdomain_field get text_beq
label_or_close-subdomain_field none l = refl
label_or_close-subdomain_field (some []) l = absurd l
label_or_close-subdomain_field (some (c ∷ cs)) l =
    ap (λ t. require 4002 (valid_label t) >> accepted (some t)) l.1
    ∙ ap (λ b. require 4002 b >> accepted (some (c ∷ cs))) l.0

-- The relay finds in a hello what the agent put there.
read_hello-hello_of : (a : Agent) → IsAgent a → read_hello (success (hello_of a)) ≡ accepted a
unfolding read_hello hello_of dict_or_close token_from_hello equals_text equals_number
    scheme_from_hello text_or_close flow_window_from_hello window_value get text_beq window_or_close
read_hello-hello_of a h =
    >>=-accepted _ (label_or_close-subdomain_field a.subdomain h.is_label)
    ∙ >>=-accepted _ (ap (λ b. require 4000 b >> accepted a.scheme) h.is_scheme_known)
    ∙ >>=-accepted _ (ap window_or_close h.is_window_valid)

read_reply-ready_of :
    (a : Agent) (url : Text) (label : Option Text) (n : ℕ)
    → validate_flow_window (integer n) ≡ valid n
    → n ≤ a.window
    → read_reply a (success (ready_of url label n))
      ≡ some (record {
        public_url = url;
        subdomain = elim label [ none ↦ null | some l ↦ string l ];
        window = n;
      })
unfolding read_reply ready_of ready_of_url ready_of_window equals_text equals_number window_value
    get text_beq
read_reply-ready_of a url label n v h =
    ap (ready_of_window a url (elim label [ none ↦ null | some l ↦ string l ])) v
    ∙ ground (arith, h)

negotiate-valid :
    (m n : ℕ)
    → validate_flow_window (integer m) ≡ valid m
    → validate_flow_window (integer n) ≡ valid n
    → validate_flow_window (integer (negotiate m n)) ≡ valid (negotiate m n)
unfolding negotiate validate_flow_window
negotiate-valid m n h k = ground (arith, h, k)

-- For an agent that Tunnel.__init__ lets through and a relay whose own window is valid, the relay
-- finds in the agent's hello exactly its token, scheme, label and window, and the agent takes the
-- ready reply with the window that the relay settles on, which is above neither of their own.
pub new_agent-agrees :
    (token scheme : Text) (subdomain : Option Text) (window : WindowValue) (a : Agent) (own : ℕ)
    → new_agent token scheme subdomain window ≡ some a
    → validate_flow_window (integer own) ≡ valid own
    → (url : Text) (label : Option Text)
    → (read_hello (success (hello_of a)) ≡ accepted a)
      × (read_reply a (success (ready_of url label (negotiate a.window own)))
          ≡ some (record {
            public_url = url;
            subdomain = elim label [ none ↦ null | some l ↦ string l ];
            window = negotiate a.window own;
          }))
      × (negotiate a.window own ≤ a.window)
      × (negotiate a.window own ≤ own)
unfolding negotiate
new_agent-agrees token scheme subdomain window a own h k url label =
    let agent = new_agent-IsAgent token scheme subdomain window a h in
    (
      read_hello-hello_of a agent,
      read_reply-ready_of a url label (negotiate a.window own)
          (negotiate-valid a.window own agent.is_window_valid k) (omega arith),
      omega arith,
      omega arith,
    )
