-- ===== src/Security/Network.antt =====
-- src/security/network.rs: addresses in normal form, and CIDR networks.
use Prim.Native.Nat.{bit_and}
use edge_gateway.Prelude.{
  ℕ, ◌-◌, ◌*◌, ◌%◌, ◌^◌, String, Bool, false, not, ◌&&◌, Result, ok, err, ◌>>=◌, ok_or, leb,
  if◌then◌else◌, ◌==◌, nat_eq,
}
use edge_gateway.Prelude.Text.{Text, split_once, parse_uint}
use edge_gateway.Net.{IpAddr, v4, v6, is_ipv4_mapped}
use edge_gateway.Net.Parse.{parse_ip}

-- An IPv4-mapped IPv6 address becomes the IPv4 address in its low 32 bits.
unfoldable pub normalize_ip : IpAddr → IpAddr
normalize_ip (v4 a) = v4 a
normalize_ip (v6 a) = if is_ipv4_mapped a then v4 (a % 2 ^ 32) else v6 a

-- An address of `width` bits, and a mask for it.
pub data IpNetwork : Type 0 where
  v4_network v6_network : ℕ → ℕ → IpNetwork

-- `MAX << (width - prefix)`, or 0 for the empty prefix.
unfoldable pub mask_of : ℕ → ℕ → ℕ
mask_of width prefix =
    if prefix == 0 then 0 else ((2 ^ width - 1) * 2 ^ (width - prefix)) % 2 ^ width

abbrev pub not_canonical : String
not_canonical = "CIDR must use the canonical network address"

abbrev pub bad_prefix : String
bad_prefix = "invalid CIDR prefix or IPv4-mapped IPv6 CIDR; use IPv4 CIDR instead"

canonical_network : IpAddr → ℕ → Result String IpNetwork
unfolding mask_of
canonical_network (v4 network) prefix =
    if leb prefix 32
    then (let mask = mask_of 32 prefix in
        if not (bit_and network mask == network)
        then err not_canonical
        else ok (v4_network network mask))
    else err bad_prefix
canonical_network (v6 network) prefix =
    if leb prefix 128 && not (is_ipv4_mapped network)
    then (let mask = mask_of 128 prefix in
        if not (bit_and network mask == network)
        then err not_canonical
        else ok (v6_network network mask))
    else err bad_prefix

unfoldable pub parse : Text → Result String IpNetwork
unfolding canonical_network
parse value = do
  parts ← ok_or (split_once b'/' value) "CIDR prefix is required"
  address ← ok_or (parse_ip parts.0) "invalid CIDR IP"
  prefix ← ok_or (parse_uint (2 ^ 32) parts.1) "invalid CIDR prefix"
  canonical_network address prefix

contains_normal : IpNetwork → IpAddr → Bool
contains_normal (v4_network network mask) (v4 address) = bit_and address mask == network
contains_normal (v4_network network mask) (v6 address) = false
contains_normal (v6_network network mask) (v4 address) = false
contains_normal (v6_network network mask) (v6 address) = bit_and address mask == network

unfoldable pub contains : IpNetwork → IpAddr → Bool
unfolding contains_normal normalize_ip
contains network address = contains_normal network (normalize_ip address)
