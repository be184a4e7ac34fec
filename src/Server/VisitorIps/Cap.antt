-- ===== src/Server/VisitorIps/Cap.antt =====
-- The cap on the visitors of one source, src/chute/server.py: the counts and the size of the table.
use chute.Prelude.{
  ℕ, List, true, if◌then◌else◌, ◌≡◌, refl, ◌≤◌, ◌<◌, ◌+◌, arith, length, Option, some, none, ◌-◌,
}
use chute.Prelude.Text.{Text, text_eq}
use chute.Prelude.Dict.{put, pop, get-put, get-pop, length-put, has}
use chute.Server.Accounts.{count_of}
use chute.Server.VisitorIps.{
  VisitorIps, acquire_key, visitor_ip_max_keys, try_acquire_visitor_ip, release_visitor_ip,
}

pub count_of-put :
    (k j : Text) (n : ℕ) (d : List (Text × ℕ))
    → count_of j (put k n d) ≡ (if text_eq.beq k j then n else count_of j d)
unfolding count_of
count_of-put k j n d = ground (arith, get-put k j n d)

pub count_of-pop :
    (k j : Text) (d : List (Text × ℕ))
    → count_of j (pop k d) ≡ (if text_eq.beq k j then 0 else count_of j d)
unfolding count_of
count_of-pop k j d = ground (arith, get-pop k j d)

has_of_count : (k : Text) (d : List (Text × ℕ)) → 0 < count_of k d → has k d ≡ true
unfolding count_of has
has_of_count k d h = ground arith

-- Letting a visitor of `key` in leaves its source at or below the limit and the table at or below
-- its cap, when it was there.
pub acquire_key-IsCapped :
    (limit : ℕ) (key j : Text) (ips : VisitorIps)
    → count_of j ips ≤ limit
    → length ips ≤ visitor_ip_max_keys
    → (count_of j (acquire_key limit key ips).0 ≤ limit)
      × (length (acquire_key limit key ips).0 ≤ visitor_ip_max_keys)
unfolding acquire_key
acquire_key-IsCapped limit key j ips h k = ground (
  arith,
  count_of-put key j (count_of key ips + 1) ips,
  length-put key (count_of key ips + 1) ips,
  has_of_count key ips,
  text_eq.beq_iff key j,
)

-- Every source is at or below the limit, and the table at or below its cap.
abbrev pub IsCapped : ℕ → VisitorIps → Type 0
IsCapped limit ips = ((j : Text) → count_of j ips ≤ limit) × (length ips ≤ visitor_ip_max_keys)

-- With a limit, an acquisition keeps every source at or below the limit and the table of sources
-- at or below 65,536 keys, granted or not.
pub try_acquire_visitor_ip-IsCapped :
    (limit : ℕ) (key : Option Text) (ips : VisitorIps)
    → IsCapped limit ips
    → IsCapped limit (try_acquire_visitor_ip (some limit) key ips).0
unfolding try_acquire_visitor_ip
try_acquire_visitor_ip-IsCapped limit none ips h = h
try_acquire_visitor_ip-IsCapped limit (some key) ips h = (
  λ j. (acquire_key-IsCapped limit key j ips (h.0 j) h.1).0,
  (acquire_key-IsCapped limit key key ips (h.0 key) h.1).1,
)

-- Releasing never raises a count.
pub release_visitor_ip-le :
    (key j : Text) (ips : VisitorIps)
    → count_of j (release_visitor_ip (some key) ips) ≤ count_of j ips
unfolding release_visitor_ip
release_visitor_ip-le key j ips = ground (
  arith,
  count_of-put key j (count_of key ips - 1) ips,
  count_of-pop key j ips,
  text_eq.beq_iff key j,
)

-- When a visitor is let in, releasing the key that was handed out gives every source the count
-- that it had before.
pub release_visitor_ip-try_acquire_visitor_ip :
    (limit : Option ℕ) (key : Option Text) (ips : VisitorIps) (j : Text)
    → (try_acquire_visitor_ip limit key ips).1.0 ≡ true
    → count_of j (
        release_visitor_ip
          (try_acquire_visitor_ip limit key ips).1.1
          (try_acquire_visitor_ip limit key ips).0)
      ≡ count_of j ips
unfolding try_acquire_visitor_ip acquire_key release_visitor_ip
release_visitor_ip-try_acquire_visitor_ip none key ips j h = refl
release_visitor_ip-try_acquire_visitor_ip (some limit) none ips j h = refl
release_visitor_ip-try_acquire_visitor_ip (some limit) (some key) ips j h =
    let current = count_of key ips in
    let after = put key (current + 1) ips in
    ground (
      arith,
      count_of-put key key (current + 1) ips,
      count_of-put key j (current + 1) ips,
      count_of-put key j (count_of key after - 1) after,
      count_of-pop key j after,
      text_eq.beq_iff key j,
      text_eq.beq_iff key key,
    )
