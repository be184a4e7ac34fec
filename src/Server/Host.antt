-- ===== src/Server/Host.antt =====
-- The Host of a request, src/chute/server.py: the port, the host itself, the whole request head,
-- and the label that a host names under the base domain.
pub mod Labels
pub mod Lines
use chute.Prelude.{
  ℕ, List, Bool, Option, none, some, true, [], ◌∷◌, ◌++◌, ◌==◌, ◌+◌, ◌*◌, ◌-◌, ◌&&◌, ◌||◌, not,
  if◌then◌else◌, is_empty, length, leb, all, any, take,
}
use chute.Prelude.Text.{Text, Bytes, text_beq}
use chute.Names.{valid_label}
use chute.Server.Claims.{lower}
use chute.Server.Head.{
  Parsed, bad_request_line, bare_cr_or_lf, strip, split_on, split_crlf, starts_with_byte,
  ends_with_byte, has_bare, request_line, hosts_of, ok, bad, bad_host, empty_host, missing_host,
  bad_port, bad_host_char, duplicate_host,
}

unfoldable pub is_digit : ℕ → Bool
is_digit c = leb 48 c && leb c 57

-- `int(port)` for digits, from the value of those read
unfoldable pub number_from : ℕ → Text → ℕ
number_from n [] = n
number_from n (c ∷ cs) = number_from (n * 10 + (c - 48)) cs

-- `_check_port`
unfoldable pub check_port : Text → Bool
check_port port =
    not (is_empty port)
    && all is_digit port
    && leb (length port) 5
    && leb (number_from 0 port) 65535

-- `host.find("]")`: the text before the first `]` and the text after it
unfoldable pub split_bracket : Text → Option (Text × Text)
split_bracket [] = none
split_bracket (c ∷ cs) =
    let rest = split_bracket cs in
    if c == 93
    then some ([], cs)
    else elim rest [ none ↦ none | some parts ↦ some (c ∷ parts.0, parts.1) ]

-- `host.rpartition(":")`, where there is a colon
unfoldable pub rpartition_colon : Text → Option (Text × Text)
rpartition_colon [] = none
rpartition_colon (c ∷ cs) =
    let rest = rpartition_colon cs in
    elim rest [
      | none ↦ if c == 58 then some ([], cs) else none
      | some parts ↦ some (c ∷ parts.0, parts.1)
    ]

unfoldable pub after_literal : Text → Text → Parsed Text
after_literal literal [] = ok literal
after_literal literal (c ∷ port) =
    if not (c == 58) then bad bad_host else if check_port port then ok literal else bad bad_port

unfoldable pub strip_name_port : Text → Parsed Text
strip_name_port host = elim (rpartition_colon host) [
  | none ↦ ok host
  | some parts ↦
      if is_empty parts.0 || any (λ c. c == 58) parts.0
      then bad bad_host
      else if check_port parts.1
      then ok parts.0
      else bad bad_port
]

unfoldable pub then_lower : Parsed Text → Parsed Text
then_lower (ok host) = ok (lower host)
then_lower (bad e) = bad e

-- `host[:-1] if host.endswith(".") else host`
unfoldable pub rootless : Text → Text
rootless host = if ends_with_byte 46 host then take (length host - 1) host else host

unfoldable pub check_host : Text → Parsed Text
check_host host =
    if is_empty host || any (λ c. c == 64) host
    then bad bad_host
    else if starts_with_byte 91 host
    then ok host
    else if any (λ c. c == 58) host
    then bad bad_host
    else if is_empty (rootless host) || not (all valid_label (split_on 46 (rootless host)))
    then bad bad_host
    else ok host

unfoldable pub then_check : Parsed Text → Parsed Text
then_check (ok host) = check_host host
then_check (bad e) = bad e

unfoldable pub is_printable : ℕ → Bool
is_printable b = leb 33 b && leb b 126

module _ (ipv6 : Text → Bool) where
  -- `_strip_port` of an IPv6 literal, for what follows the `[`
  unfoldable pub strip_literal_port : Text → Parsed Text
  strip_literal_port inner = elim (split_bracket inner) [
    | none ↦ bad bad_host
    | some parts ↦
        if ipv6 parts.0 then after_literal (91 ∷ parts.0 ++ (93 ∷ [])) parts.1 else bad bad_host
  ]

  -- `_strip_port`
  unfoldable pub strip_port : Text → Parsed Text
  strip_port [] = strip_name_port []
  strip_port (c ∷ cs) = if c == 91 then strip_literal_port cs else strip_name_port (c ∷ cs)

  -- `_validate_host`
  unfoldable pub validate_host : Bytes → Parsed Text
  validate_host value =
      let v = strip value in
      if is_empty v
      then bad empty_host
      else if not (all is_printable v)
      then bad bad_host_char
      else then_check (then_lower (strip_port v))

  unfoldable pub then_some : Parsed Text → Parsed (Option Text)
  then_some (ok host) = ok (some host)
  then_some (bad e) = bad e

  -- What `_parse_request_head` answers for the Host values it has collected.
  unfoldable pub one_host : Bool → ℕ → List Bytes → Parsed (Option Text)
  one_host require_host minor [] =
      if require_host || (minor == 1) then bad missing_host else ok none
  one_host require_host minor (value ∷ []) = then_some (validate_host value)
  one_host require_host minor (value ∷ other_value ∷ values) = bad duplicate_host

  unfoldable pub with_hosts : Bool → ℕ → Parsed (List Bytes) → Parsed (Option Text)
  with_hosts require_host minor (ok hosts) = one_host require_host minor hosts
  with_hosts require_host minor (bad e) = bad e

  unfoldable pub with_request_line : Bool → Parsed ℕ → List Bytes → Parsed (Option Text)
  with_request_line require_host (ok minor) lines = with_hosts require_host minor (hosts_of lines)
  with_request_line require_host (bad e) lines = bad e

  unfoldable pub parse_lines : Bool → List Bytes → Parsed (Option Text)
  parse_lines require_host [] = bad bad_request_line
  parse_lines require_host (first ∷ lines) =
      with_request_line require_host (request_line (split_on 32 first)) lines

  -- `_parse_request_head`
  unfoldable pub parse_request_head : Bool → Bytes → Parsed (Option Text)
  parse_request_head require_host head =
      if has_bare head then bad bare_cr_or_lf else parse_lines require_host (split_crlf head)

  unfoldable pub required_host : Parsed (Option Text) → Parsed Text
  required_host (ok (some host)) = ok host
  required_host (ok none) = bad missing_host
  required_host (bad e) = bad e

  -- `_host_from_head`
  unfoldable pub host_from_head : Bytes → Parsed Text
  host_from_head head = required_host (parse_request_head true head)

-- `host.rstrip(".")`
unfoldable pub rstrip_dots : Text → Text
rstrip_dots [] = []
rstrip_dots (c ∷ cs) =
    let rest = rstrip_dots cs in if is_empty rest && (c == 46) then [] else c ∷ rest

-- `host[: -len(suffix)]`, where the host ends in the suffix
unfoldable pub before_suffix : Text → Text → Option Text
before_suffix suffix [] = if is_empty suffix then some [] else none
before_suffix suffix (c ∷ cs) =
    let rest = before_suffix suffix cs in
    if text_beq (c ∷ cs) suffix
    then some []
    else elim rest [ none ↦ none | some label ↦ some (c ∷ label) ]

unfoldable pub label_under : Text → Text → Option Text
label_under base_domain host =
    if text_beq host base_domain then none else elim (before_suffix (46 ∷ base_domain) host) [
      | none ↦ none
      | some label ↦ if valid_label label then some label else none
    ]

-- `_label_from_host`
unfoldable pub label_from_host : Text → Option Text → Option Text
label_from_host base_domain none = none
label_from_host base_domain (some host) =
    if is_empty host || is_empty base_domain
    then none
    else label_under base_domain (rstrip_dots (lower host))
