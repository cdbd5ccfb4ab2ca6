-- ===== src/Net/Endpoint.antt =====
-- What the three kinds of backend share: a socket address, and the text of a URI's host as an address.
use edge_gateway.Prelude.{ℕ, ◌<◌, ◌≡◌, true, Option, [], ◌∷◌, ◌==◌, nat_eq, if◌then◌else◌}
use edge_gateway.Prelude.Text.{Text}
use edge_gateway.Net.{IpAddr, is_loopback}
use edge_gateway.Net.Parse.{parse_ip}

pub record SocketAddr : Type 0 where
  pub ip : IpAddr
  pub port : ℕ

-- The process itself: a loopback address and a port that can be connected to.
pub record IsLocal (address : SocketAddr) : Type 0 where
  pub loopback : is_loopback address.ip ≡ true
  pub port_pos : 0 < address.port
  pub port_bounded : address.port < 65536

-- `trim_start_matches(c)`
unfoldable pub trim_start : ℕ → Text → Text
trim_start c [] = []
trim_start c (b ∷ s) = elim (b == c) [ true ↦ trim_start c s | _ ↦ b ∷ s ]

-- `trim_end_matches(c)`
unfoldable pub trim_end : ℕ → Text → Text
trim_end c [] = []
trim_end c (b ∷ s) = elim (trim_end c s) [ [] ↦ if b == c then [] else b ∷ [] | d ∷ r ↦ b ∷ d ∷ r ]

-- `host.trim_start_matches('[').trim_end_matches(']').parse::<IpAddr>()`
unfoldable pub parse_host_ip : Text → Option IpAddr
unfolding trim_start trim_end
parse_host_ip host = parse_ip (trim_end b']' (trim_start b'[' host))
