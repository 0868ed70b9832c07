-- ===== src/Public/Limits.antt =====
-- The caps of crates/tuyau-server/src/public.rs: `PerIpLimiter`, and the accept loop with its
-- semaphore of permits.
pub mod Counting
use tuyau.Prelude.{
  ℕ, zero, suc, ◌+◌, ◌-◌, ◌/◌, ◌≡◌, Bool, List, [], ◌∷◌, Option, none, some, if◌then◌else◌, leb,
  ◌==◌, nat_eq, max,
}
use tuyau.Prelude.Dict.{Dict, get, insert, remove}
use tuyau.Net.{IpAddr, ip_eq}

abbrev pub max_conns_per_ip : ℕ → ℕ
max_conns_per_ip global = max (global / 8) 16

abbrev pub default_max_public_connections : ℕ
default_max_public_connections = 1024

pub record PerIpLimiter : Type 0 where
  pub max_per_ip : ℕ
  pub counts : Dict IpAddr ℕ

-- `*counts.entry(ip).or_insert(0)`
abbrev pub count_of : Option ℕ → ℕ
count_of none = 0
count_of (some c) = c

-- Whether the slot is given; a refusal leaves the entry that `or_insert` made.
unfoldable pub try_acquire : IpAddr → PerIpLimiter → PerIpLimiter × Bool
try_acquire ip l =
    let c = count_of (get ip l.counts) in
    if leb l.max_per_ip c
    then (record l { counts = insert ip c l.counts }, Bool.false)
    else (record l { counts = insert ip (c + 1) l.counts }, Bool.true)

-- The drop of an `IpPermit`, once the count is known.
abbrev pub release_count : Option ℕ → IpAddr → PerIpLimiter → PerIpLimiter
release_count none ip l = l
release_count (some c) ip l =
    if c - 1 == 0
    then record l { counts = remove ip l.counts }
    else record l { counts = insert ip (c - 1) l.counts }

unfoldable pub release : IpAddr → PerIpLimiter → PerIpLimiter
release ip l = release_count (get ip l.counts) ip l

-- The state of the accept loop: free permits of the semaphore, the limiter, and the address of
-- each connection that is being handled.
pub record Listener : Type 0 where
  pub permits : ℕ
  pub per_ip : PerIpLimiter
  pub live : List IpAddr

abbrev pub start : ℕ → Listener
start max_conns = record {
  permits = max_conns;
  per_ip = record { max_per_ip = max_conns_per_ip max_conns; counts = [] };
  live = [];
}

-- What follows the semaphore's permit: refused by the limiter, the permit goes back.
abbrev pub admit_ip : ℕ → IpAddr → PerIpLimiter × Bool → Listener → Listener
admit_ip free ip (l, Bool.true) s = record { permits = free; per_ip = l; live = ip ∷ s.live }
admit_ip free ip (l, Bool.false) s = record s { per_ip = l }

-- A connection from an address: shed without a free permit or at the cap of its address.
abbrev pub accept_with : ℕ → IpAddr → Listener → Listener
accept_with zero ip s = s
accept_with (suc free) ip s = admit_ip free ip (try_acquire ip s.per_ip) s

unfoldable pub accept : IpAddr → Listener → Listener
accept ip s = accept_with s.permits ip s

-- One element less.
pub remove_one : IpAddr → List IpAddr → List IpAddr
remove_one ip [] = []
remove_one ip (x ∷ xs) = let rest = remove_one ip xs in if x == ip then xs else x ∷ rest

abbrev pub is_live : IpAddr → List IpAddr → Bool
is_live ip [] = Bool.false
is_live ip (x ∷ xs) = if x == ip then Bool.true else is_live ip xs

-- The end of a connection that is being handled: both permits are dropped.
unfoldable pub close : IpAddr → Listener → Listener
unfolding remove_one
close ip s =
    if is_live ip s.live
    then record {
      permits = suc s.permits;
      per_ip = release ip s.per_ip;
      live = remove_one ip s.live;
    }
    else s
