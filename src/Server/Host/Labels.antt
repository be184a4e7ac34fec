-- ===== src/Server/Host/Labels.antt =====
-- Host routing, src/chute/server.py: which label a host names, and what a host is that the request
-- parser lets through.
use chute.Prelude.{
  some, true, false, [], ◌∷◌, ◌++◌, ◌≡◌, inl, inr, ◌==◌, arith, Option-cases, all, any, append-nil,
  Bool, ◌&&◌, not, ℕ, List, Option, refl, ◌⊎◌, subst, sym, Bool-cases, ap,
}
use chute.Prelude.Text.{Text, text_eq, text_beq_iff, Bytes}
use chute.Names.{valid_label}
use chute.Server.Head.{
  split_on, starts_with_byte, ok, Parsed, bad, hosts_of, request_line, split_crlf, strip,
}
use chute.Server.Host.{
  before_suffix, label_from_host, check_host, label_under, rstrip_dots, rootless, validate_host,
  one_host, then_check, then_some, then_lower, with_hosts, with_request_line, parse_lines,
  required_host, host_from_head, parse_request_head, strip_port, split_bracket, after_literal,
  strip_literal_port, rpartition_colon, strip_name_port,
}
use chute.Server.Host.Lines.{HasCleanLines, has_bare-clean}
use chute.Server.Claims.{lower, lower_char}
use mathlib.Core.Option.{none}

-- Whatever `before_suffix` answers, the host is that text followed by the suffix.
before_suffix_lem :
    (suffix host label : Text) → before_suffix suffix host ≡ some label → host ≡ label ++ suffix
unfolding before_suffix
before_suffix_lem suffix [] label h = ground (arith, append-nil label)
before_suffix_lem suffix (c ∷ cs) label h = elim (Option-cases (before_suffix suffix cs)) [
  | inl e ↦ ground (arith, text_beq_iff (c ∷ cs) suffix)
  | inr (rest, e) ↦
      let ih = before_suffix_lem suffix cs rest e in ground (arith, text_beq_iff (c ∷ cs) suffix)
]

-- A host that routes to a label is, in lower case and without its trailing dots, that label under
-- the base domain, and the label is valid.
pub label_from_host_lem :
    (base_domain host label : Text)
    → label_from_host base_domain (some host) ≡ some label
    → (rstrip_dots (lower host) ≡ label ++ (46 ∷ base_domain)) × (valid_label label ≡ true)
unfolding label_from_host label_under
label_from_host_lem base_domain host label h =
    ground (arith, before_suffix_lem (46 ∷ base_domain) (rstrip_dots (lower host)) label)

-- The text of a literal that `ipaddress` takes, in brackets and lower case and with nothing after the
-- closing one.
abbrev pub IsLiteral : (Text → Bool) → Text → Type 0
IsLiteral ipv6 host =
    (literal : Text) × (host ≡ lower (91 ∷ literal ++ (93 ∷ [])))
    × (ipv6 literal ≡ true)
    × (any (λ c. c == 93) literal ≡ false)

-- A sequence of valid labels with dots between them and at most one dot after the last, without a
-- colon.
unfoldable pub is_name : Text → Bool
is_name host = all valid_label (split_on 46 (rootless host)) && not (any (λ c. c == 58) host)

abbrev pub IsRoutable : (Text → Bool) → Text → Type 0
IsRoutable ipv6 host = IsLiteral ipv6 host ⊎ (is_name host ≡ true)

-- What `check_host` gets: a literal in brackets, or a text that does not start with one.
abbrev IsStripped : (Text → Bool) → Text → Type 0
IsStripped ipv6 host = IsLiteral ipv6 host ⊎ (starts_with_byte 91 host ≡ false)

check_host-IsRoutable :
    (ipv6 : Text → Bool) (host accepted : Text)
    → IsStripped ipv6 host
    → check_host host ≡ ok accepted
    → IsRoutable ipv6 accepted
unfolding check_host is_name
check_host-IsRoutable ipv6 host accepted (inl l) h =
    let same : host ≡ accepted = ground arith in inl (subst (IsLiteral ipv6) same l)
check_host-IsRoutable ipv6 host accepted (inr n) h = inr (ground arith)

then_check-IsRoutable :
    (ipv6 : Text → Bool) (parsed : Parsed Text) (accepted : Text)
    → ((host : Text) → parsed ≡ ok host → IsStripped ipv6 host)
    → then_check parsed ≡ ok accepted
    → IsRoutable ipv6 accepted
unfolding then_check
then_check-IsRoutable ipv6 (ok host) accepted s h =
    check_host-IsRoutable ipv6 host accepted (s host refl) h
then_check-IsRoutable ipv6 (bad e) accepted s h = cc

-- The text before the first `]` has none.
split_bracket-any :
    (s : Text) (parts : Text × Text)
    → split_bracket s ≡ some parts
    → any (λ c. c == 93) parts.0 ≡ false
unfolding split_bracket
split_bracket-any [] parts h = cc
split_bracket-any (c ∷ cs) parts h = elim (Option-cases (split_bracket cs)) [
  | inl e ↦ ground arith
  | inr (found, e) ↦ let ih = split_bracket-any cs found e in ground arith
]

after_literal_lem :
    (literal after host : Text) → after_literal literal after ≡ ok host → literal ≡ host
unfolding after_literal
after_literal_lem literal [] host h = ground arith
after_literal_lem literal (c ∷ port) host h = ground arith

starts-lower : (c : ℕ) → (c == 91) ≡ false → (lower_char c == 91) ≡ false
unfolding lower_char
starts-lower c h = ground arith

-- What a name without its port starts with.
rpartition_colon-starts :
    (c : ℕ) (cs : Text) (parts : Text × Text)
    → rpartition_colon (c ∷ cs) ≡ some parts
    → (parts.0 ≡ []) ⊎ ((rest : Text) × (parts.0 ≡ c ∷ rest))
unfolding rpartition_colon
rpartition_colon-starts c cs parts h = elim (Option-cases (rpartition_colon cs)) [
  | inl e ↦ inl ground arith
  | inr (found, e) ↦ inr (found.0, ground arith)
]

strip_name_port-starts :
    (c : ℕ) (cs host : Text)
    → (c == 91) ≡ false
    → strip_name_port (c ∷ cs) ≡ ok host
    → starts_with_byte 91 (lower host) ≡ false
unfolding strip_name_port starts_with_byte
strip_name_port-starts c cs host n h = elim (Option-cases (rpartition_colon (c ∷ cs))) [
  | inl e ↦ let l = starts-lower c n in ground arith
  | inr (parts, e) ↦
      let l = starts-lower c n in let p = rpartition_colon-starts c cs parts e in ground arith
]

strip_name_port-empty :
    (host : Text) → strip_name_port [] ≡ ok host → starts_with_byte 91 (lower host) ≡ false
unfolding strip_name_port rpartition_colon starts_with_byte
strip_name_port-empty host h = ground arith

then_lower_lem :
    (parsed : Parsed Text) (host : Text)
    → then_lower parsed ≡ ok host
    → (h : Text) × (parsed ≡ ok h) × (host ≡ lower h)
unfolding then_lower
then_lower_lem (ok h) host e = (h, refl, ground (arith, e))
then_lower_lem (bad b) host e = cc

module _ (ipv6 : Text → Bool) where
  strip_literal_port_lem :
      (cs host : Text)
      → strip_literal_port ipv6 cs ≡ ok host
      → (literal : Text) × (host ≡ 91 ∷ literal ++ (93 ∷ []))
        × (ipv6 literal ≡ true)
        × (any (λ c. c == 93) literal ≡ false)
  unfolding strip_literal_port
  strip_literal_port_lem cs host h = elim (Option-cases (split_bracket cs)) [
    | inl e ↦ absurd (ground (arith, h, e))
    | inr (parts, e) ↦
        let known : ipv6 parts.0 ≡ true = ground (arith, h, e) in
        let after : after_literal (91 ∷ parts.0 ++ (93 ∷ [])) parts.1 ≡ ok host =
          ground (arith, h, e) in
        (parts.0, sym (after_literal_lem _ parts.1 host after), known, split_bracket-any cs parts e)
  ]

  strip_port-IsStripped :
      (value host : Text) → strip_port ipv6 value ≡ ok host → IsStripped ipv6 (lower host)
  unfolding strip_port
  strip_port-IsStripped [] host h = inr (strip_name_port-empty host (ground (arith, h)))
  strip_port-IsStripped (c ∷ cs) host h = elim (Bool-cases (c == 91)) [
    | inl e ↦
        let l = strip_literal_port_lem cs host (ground (arith, h, e)) in
        inl (l.0, ap lower l.1, l.2, l.3)
    | inr e ↦ inr (strip_name_port-starts c cs host e (ground (arith, h, e)))
  ]

  then_lower-IsStripped :
      (value host : Text) → then_lower (strip_port ipv6 value) ≡ ok host → IsStripped ipv6 host
  then_lower-IsStripped value host h =
      let l = then_lower_lem (strip_port ipv6 value) host h in
      subst (IsStripped ipv6) (sym l.2) (strip_port-IsStripped value l.0 l.1)

  validate_host-IsRoutable :
      (value : Bytes) (accepted : Text)
      → validate_host ipv6 value ≡ ok accepted
      → IsRoutable ipv6 accepted
  unfolding validate_host
  validate_host-IsRoutable value accepted h =
      then_check-IsRoutable ipv6 (then_lower (strip_port ipv6 (strip value))) accepted
        (then_lower-IsStripped (strip value)) (ground (arith, h))

  one_host-IsRoutable :
      (minor : ℕ) (hosts : List Bytes) (accepted : Text)
      → one_host ipv6 true minor hosts ≡ ok (some accepted)
      → IsRoutable ipv6 accepted
  unfolding one_host then_some
  one_host-IsRoutable minor [] accepted h = ground arith
  one_host-IsRoutable minor (value ∷ []) accepted h =
      ground (arith, validate_host-IsRoutable value accepted)
  one_host-IsRoutable minor (value ∷ other_value ∷ values) accepted h = ground arith

  -- The hosts that the parser collects for the request line and the field lines.
  with_hosts-IsRoutable :
      (minor : ℕ) (hosts : Parsed (List Bytes)) (accepted : Text)
      → with_hosts ipv6 true minor hosts ≡ ok (some accepted)
      → IsRoutable ipv6 accepted
  unfolding with_hosts
  with_hosts-IsRoutable minor (ok hosts) accepted h = one_host-IsRoutable minor hosts accepted h
  with_hosts-IsRoutable minor (bad e) accepted h = ground arith

  with_request_line-IsRoutable :
      (line : Parsed ℕ) (lines : List Bytes) (accepted : Text)
      → with_request_line ipv6 true line lines ≡ ok (some accepted)
      → IsRoutable ipv6 accepted
  unfolding with_request_line
  with_request_line-IsRoutable (ok minor) lines accepted h =
      with_hosts-IsRoutable minor (hosts_of lines) accepted h
  with_request_line-IsRoutable (bad e) lines accepted h = ground arith

  parse_lines-IsRoutable :
      (lines : List Bytes) (accepted : Text)
      → parse_lines ipv6 true lines ≡ ok (some accepted)
      → IsRoutable ipv6 accepted
  unfolding parse_lines
  parse_lines-IsRoutable [] accepted h = ground arith
  parse_lines-IsRoutable (first ∷ lines) accepted h =
      with_request_line-IsRoutable (request_line (split_on 32 first)) lines accepted h

  required_host_lem :
      (parsed : Parsed (Option Text)) (accepted : Text)
      → required_host ipv6 parsed ≡ ok accepted
      → parsed ≡ ok (some accepted)
  unfolding required_host
  required_host_lem (ok (some host)) accepted h = ground arith
  required_host_lem (ok none) accepted h = ground arith
  required_host_lem (bad e) accepted h = ground arith

  -- A request head that names a host is lines without a CR or an LF in them, with a CRLF between
  -- one and the next, and the host is the lower case of an IPv6 literal that the address parser
  -- takes, in brackets and with nothing after them, or a sequence of valid labels without a colon,
  -- with dots between them and at most one dot after the last.
  pub host_from_head-IsRoutable :
      (head : Bytes) (accepted : Text)
      → host_from_head ipv6 head ≡ ok accepted
      → HasCleanLines head × IsRoutable ipv6 accepted
  unfolding host_from_head parse_request_head
  host_from_head-IsRoutable head accepted h =
      let parsed = required_host_lem (parse_request_head ipv6 true head) accepted h in
      (
        has_bare-clean head (ground (arith, parsed)),
        parse_lines-IsRoutable (split_crlf head) accepted (ground (arith, parsed)),
      )
