-- ===== src/Server/VisitorIps.antt =====
-- The per-source cap on visitors, src/chute/server.py. The key of a source is computed by
-- `ipaddress` and is an argument here; `none` is a source without a key.
pub mod Cap
use chute.Prelude.{
  ℕ, List, Bool, Option, true, some, if◌then◌else◌, none, leb, false, ◌==◌, ◌&&◌, ◌-◌, length, ◌+◌,
}
use chute.Prelude.Text.{Text, text_eq}
use chute.Server.Accounts.{count_of}
use chute.Prelude.Dict.{pop, put}

abbrev pub visitor_ip_max_keys : ℕ
visitor_ip_max_keys = 65536

abbrev pub VisitorIps : Type 0
VisitorIps = List (Text × ℕ)

-- `_try_acquire_visitor_ip` past the tests on a missing limit or key.
unfoldable pub acquire_key : ℕ → Text → VisitorIps → VisitorIps × Bool
acquire_key limit key ips =
    let current = count_of key ips in
    if leb limit current
    then (ips, false)
    else if (current == 0) && leb visitor_ip_max_keys (length ips)
    then (ips, false)
    else (put key (current + 1) ips, true)

-- The table afterwards, whether the visitor is let in, and the key to release.
unfoldable pub try_acquire_visitor_ip :
    Option ℕ → Option Text → VisitorIps → VisitorIps × (Bool × Option Text)
try_acquire_visitor_ip none key ips = (ips, (true, none))
try_acquire_visitor_ip (some limit) none ips = (ips, (true, none))
try_acquire_visitor_ip (some limit) (some key) ips =
    let (after, granted) = acquire_key limit key ips in (after, (granted, some key))

-- `_release_visitor_ip`
unfoldable pub release_visitor_ip : Option Text → VisitorIps → VisitorIps
release_visitor_ip none ips = ips
release_visitor_ip (some key) ips =
    let current = count_of key ips in
    if leb current 1 then pop key ips else put key (current - 1) ips
