-- ===== src/Security/Cloudflare.antt =====
-- src/security/cloudflare.rs: the list of networks in the cache file, a downloaded list, and the age of
-- the cache.
pub mod Cache
mod Tests
use edge_gateway.Prelude.{
  ℕ, ◌+◌, ◌-◌, ◌*◌, String, Bool, true, false, not, ◌||◌, Option, none, some, List, [], ◌∷◌, ◌++◌,
  map, filter, Result, ok, err, ◌>>=◌, ◌>>◌, refuse, ok_or, unwrap_or, if◌then◌else◌, ltb, leb,
  is_empty, head?, contains, length, ◌==◌, nat_eq, bool_eq, list_eq,
}
use edge_gateway.Prelude.Text.{Text, split, split_once, ends_with_byte, strip_last}
use edge_gateway.Prelude.Text.Trim.{trim}
use edge_gateway.Net.{IpAddr, is_ipv4}
use edge_gateway.Net.Parse.{parse_ip}
use edge_gateway.Security.Network
use edge_gateway.Security.Network.{IpNetwork}

abbrev pub max_file_bytes : ℕ
max_file_bytes = 256 * 1024

abbrev pub max_entries : ℕ
max_entries = 4096

abbrev pub refresh_age : ℕ
refresh_age = 30 * 24 * 60 * 60 * 1000000000

-- `str::lines`: a line ends with a newline, or with a carriage return and a newline; what stands behind
-- the last newline is a line as it is, unless it is empty.
unfoldable pub end_lines : List Text → List Text
end_lines [] = []
end_lines (line ∷ []) = if is_empty line then [] else line ∷ []
end_lines (line ∷ next ∷ more) = strip_last b'\r' line ∷ end_lines (next ∷ more)

unfoldable pub lines : Text → List Text
lines source = end_lines (split b'\n' source)

-- The address family of a value, true for IPv4, with its network.
unfoldable pub read_value : Text → Result String (Bool × IpNetwork)
read_value value = do
  parts ← ok_or (split_once b'/' value) "CIDR prefix required"
  address ← ok_or (parse_ip parts.0) "invalid IP address syntax"
  network ← Network.parse value
  ok (is_ipv4 address, network)

-- The loop of `validate_family`, which returns the count.
unfoldable pub count_family : Bool → ℕ → List Text → Result String ℕ
count_family ipv4 count [] = ok count
count_family ipv4 count (value ∷ values) = do
  parts ← ok_or (split_once b'/' value) "CIDR prefix required"
  address ← ok_or (parse_ip parts.0) "invalid IP address syntax"
  refuse (not (is_ipv4 address == ipv4)) "CF response contains the wrong IP family"
  _ ← Network.parse value
  refuse (ltb max_entries (count + 1)) "CF response has too many entries"
  count_family ipv4 (count + 1) values

unfoldable pub validate_family : Text → Bool → Result String (Unit {0})
validate_family source ipv4 = do
  count ← count_family ipv4 0 (filter (λ line. not (is_empty line)) (map trim (lines source)))
  refuse (count == 0) "CF response is empty"
  ok tt

-- The values of the cache: lines without their comments.
unfoldable pub cache_values : Text → List Text
cache_values source =
    filter (λ line. not (is_empty line))
      (map (λ line. trim (unwrap_or [] (head? (split b'#' line)))) (lines source))

-- The loop of `parse_networks`, with the values and networks so far and the families among them.
unfoldable pub parse_values :
    List Text
    → List IpNetwork
    → Bool
    → Bool
    → List Text
    → Result String (List IpNetwork × Bool × Bool)
parse_values seen networks has_v4 has_v6 [] = ok (networks, has_v4, has_v6)
parse_values seen networks has_v4 has_v6 (value ∷ values) = do
  refuse (contains value seen) "duplicate CIDR in CF cache"
  read ← read_value value
  let more = networks ++ (read.1 ∷ [])
  refuse (ltb max_entries (length more)) "CF cache has too many entries"
  parse_values (value ∷ seen) more (has_v4 || read.0) (has_v6 || not read.0) values

unfoldable pub parse_networks : Text → Result String (List IpNetwork)
parse_networks source = do
  refuse (ltb max_file_bytes (length source)) "CF cache exceeds 256 KiB"
  found ← parse_values [] [] false false (cache_values source)
  refuse (not found.1 || not found.2) "CF cache must contain both IP families"
  ok found.0

-- By the instants of the change of the file, if it can be read, and of now.
unfoldable pub cache_needs_refresh : Option ℕ → ℕ → Bool
cache_needs_refresh none now = true
cache_needs_refresh (some modified) now =
    if leb modified now then leb refresh_age (now - modified) else true
