-- ===== src/Server/Head.antt =====
-- The request-head parser of src/chute/server.py: what is refused with a 400, and the host that a
-- head names. `ipv6` is `ipaddress.IPv6Address`: whether it takes the text between the brackets.
use chute.Prelude.{
  ℕ, List, Bool, Option, none, some, false, [], ◌∷◌, ◌==◌, ◌&&◌, ◌||◌, not, if◌then◌else◌, is_empty,
  all, any,
}
use chute.Prelude.Text.{Bytes, codes, text_beq}
use chute.Server.Claims.{lower}

-- The reason of a `_BadRequest`.
pub data BadRequest : Type 0 where
  bare_cr_or_lf bad_request_line bad_asterisk_target non_origin_form_target obs_fold malformed_field
        ws_before_colon missing_host duplicate_host empty_host bad_host_char bad_host bad_port :
      BadRequest

-- What is computed, or the request that is refused.
pub data Parsed {ℓ} (A : Type ℓ) : Type ℓ where
  ok : A → Parsed A
  bad : BadRequest → Parsed A

-- `_TCHARS`
abbrev pub tchars : Bytes
tchars = codes "ABCDEFGHIJKLMNOPQRSTUVWXYZabcdefghijklmnopqrstuvwxyz0123456789!#$%&'*+-.^_`|~"

unfoldable pub is_http_token : Bytes → Bool
is_http_token value = not (is_empty value) && all (λ b. any (λ t. b == t) tchars) value

-- `b"\r" in stripped or b"\n" in stripped`, `stripped` being the head without each CRLF
unfoldable pub has_bare : Bytes → Bool
has_bare [] = false
has_bare (b ∷ []) = (b == 13) || (b == 10)
has_bare (b ∷ c ∷ bs) =
    let after = has_bare bs in
    let next = has_bare (c ∷ bs) in
    if (b == 13) && (c == 10) then after else (b == 13) || (b == 10) || next

unfoldable pub push_head : ℕ → List Bytes → List Bytes
push_head b [] = (b ∷ []) ∷ []
push_head b (line ∷ lines) = (b ∷ line) ∷ lines

-- `head.split(b"\r\n")`
unfoldable pub split_crlf : Bytes → List Bytes
split_crlf [] = [] ∷ []
split_crlf (b ∷ []) = (b ∷ []) ∷ []
split_crlf (b ∷ c ∷ bs) =
    let after = split_crlf bs in
    let next = split_crlf (c ∷ bs) in
    if (b == 13) && (c == 10) then [] ∷ after else push_head b next

-- `value.split(sep)` for one byte
unfoldable pub split_on : ℕ → Bytes → List Bytes
split_on sep [] = [] ∷ []
split_on sep (b ∷ bs) =
    let rest = split_on sep bs in if b == sep then [] ∷ rest else push_head b rest

unfoldable pub starts_with_byte : ℕ → Bytes → Bool
starts_with_byte c [] = false
starts_with_byte c (b ∷ bs) = b == c

unfoldable pub ends_with_byte : ℕ → Bytes → Bool
ends_with_byte c [] = false
ends_with_byte c (b ∷ []) = b == c
ends_with_byte c (b ∷ d ∷ bs) = ends_with_byte c (d ∷ bs)

unfoldable pub is_ows : ℕ → Bool
is_ows b = (b == 32) || (b == 9)

unfoldable pub lstrip : Bytes → Bytes
lstrip [] = []
lstrip (b ∷ bs) = let rest = lstrip bs in if is_ows b then rest else b ∷ bs

unfoldable pub rstrip : Bytes → Bytes
rstrip [] = []
rstrip (b ∷ bs) = let rest = rstrip bs in if is_empty rest && is_ows b then [] else b ∷ rest

-- `value.strip(b" \t")`
abbrev pub strip : Bytes → Bytes
strip value = lstrip (rstrip value)

-- `line.partition(b":")`, where there is a colon
unfoldable pub partition_colon : Bytes → Option (Bytes × Bytes)
partition_colon [] = none
partition_colon (b ∷ bs) =
    let rest = partition_colon bs in
    if b == 58
    then some ([], bs)
    else elim rest [ none ↦ none | some parts ↦ some (b ∷ parts.0, parts.1) ]

-- Which HTTP/1.x version a request line ends in.
unfoldable pub version_of : Bytes → Option ℕ
version_of v =
    if text_beq v (codes "HTTP/1.0")
    then some 0
    else if text_beq v (codes "HTTP/1.1")
    then some 1
    else none

unfoldable pub check_target : Bytes → ℕ → Parsed ℕ
check_target target minor =
    if text_beq target (codes "*")
    then ok minor
    else if starts_with_byte 47 target
    then ok minor
    else if starts_with_byte 42 target
    then bad bad_asterisk_target
    else bad non_origin_form_target

-- The request line: its minor version, when it is well formed.
unfoldable pub request_line : List Bytes → Parsed ℕ
request_line (method ∷ target ∷ version ∷ []) =
    if not (is_http_token method) || is_empty target
    then bad bad_request_line
    else elim (version_of version) [
      | none ↦ bad bad_request_line
      | some minor ↦ check_target target minor
    ]
request_line _ = bad bad_request_line

-- One field line: its value, when it is a Host field.
unfoldable pub field_line : Bytes → Parsed (Option Bytes)
field_line line =
    if starts_with_byte 32 line || starts_with_byte 9 line
    then bad obs_fold
    else elim (partition_colon line) [
      | none ↦ bad malformed_field
      | some parts ↦
          if not (is_http_token parts.0) || not (text_beq (strip parts.0) parts.0)
          then bad ws_before_colon
          else if text_beq (lower parts.0) (codes "host")
          then ok (some parts.1)
          else ok none
    ]

unfoldable pub then_hosts : Parsed (Option Bytes) → Parsed (List Bytes) → Parsed (List Bytes)
then_hosts (bad e) rest = bad e
then_hosts (ok none) rest = rest
then_hosts (ok (some value)) (ok hosts) = ok (value ∷ hosts)
then_hosts (ok (some value)) (bad e) = bad e

-- The Host values of the field block, up to the blank line.
unfoldable pub hosts_of : List Bytes → Parsed (List Bytes)
hosts_of [] = ok []
hosts_of (line ∷ lines) =
    let rest = hosts_of lines in if is_empty line then ok [] else then_hosts (field_line line) rest
