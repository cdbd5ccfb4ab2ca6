-- ===== src/Routing.antt =====
-- src/routing/mod.rs, part one: DNS names and the host of a request.
-- `normalize_dns_host` canonicalizes a name of the configuration or of a request;
-- `resolve_request_host` reads the `Host` header and the authority of the URI.
pub mod HostPaths
pub mod Policy
pub mod Names
pub mod Canonical
pub mod Hosts
mod Tests
use edge_gateway.Prelude.{
  ℕ, ◌*◌, ◌+◌, String, Bool, true, false, not, ◌&&◌, ◌||◌, Option, none, some, List, [], ◌∷◌, map,
  Result, ok, err, ◌>>=◌, ◌>>◌, guard, refuse, ok_or, ltb, leb, if◌then◌else◌, length, is_empty,
  all, head?, ◌==◌, nat_eq, list_eq, option_eq, is_some, unwrap_or, or_else,
}
use edge_gateway.Prelude.Text.{
  Text, text, is_digit, is_alphanumeric, to_lower, ends_with_byte, starts_with, strip_last, split,
  split_once, parse_uint,
}
use edge_gateway.Net.Parse.{parse_ip}
use edge_gateway.Http.{HeaderLib}

-- The condition under which the loop over the labels refuses one.
unfoldable pub label_refused : Text → Bool
label_refused label =
    is_empty label
    || ltb 63 (length label)
    || starts_with label (b'-' ∷ [])
    || ends_with_byte label b'-'
    || not (all (λ b. is_alphanumeric b || b == b'-') label)

unfoldable pub check_labels : List Text → Result String (Unit {0})
check_labels [] = ok tt
check_labels (label ∷ labels) = do
  refuse (label_refused label) "host contains an invalid DNS label; wildcards are not supported"
  check_labels labels

unfoldable pub is_ascii : Text → Bool
is_ascii = all (λ b. ltb b 128)

unfoldable pub normalize_dns_host : Text → Result String Text
normalize_dns_host value = do
  let name = strip_last b'.' value
  refuse (is_empty name || ltb 253 (length name) || not (is_ascii name))
      "host must be an ASCII DNS name between 1 and 253 bytes"
  refuse (is_some (parse_ip name)) "IP literal routing hosts are not supported"
  check_labels (split b'.' name)
  ok (map to_lower name)

parse_port : Text → Result String ℕ
parse_port port = do
  refuse (is_empty port || not (all is_digit port)) "invalid authority port"
  number ← ok_or (parse_uint 65536 port) "invalid authority port"
  refuse (number == 0) "authority port must not be zero"
  ok number

unfoldable pub normalize_authority : Text → Result String (Text × Option ℕ)
unfolding parse_port
normalize_authority value = elim (split_once b':' value) [
  | some (host, port) ↦ do
    number ← parse_port port
    name ← normalize_dns_host host
    ok (name, some number)
  | none ↦ do name ← normalize_dns_host value; ok (name, none)
]

pub data Version : Type 0 where
  other_version http_2 : Version

abbrev pub is_http_2 : Version → Bool
is_http_2 other_version = false
is_http_2 http_2 = true

-- `Option::transpose` after a fallible map.
abbrev pub traverse {ℓ κ} :
    {A : Type ℓ} {B : Type κ} → (A → Result String B) → Option A → Result String (Option B)
traverse f none = ok none
traverse f (some a) = f a >>= λ b. ok (some b)

-- `header.0 != authority.0 || header.1.unwrap_or(443) != authority.1.unwrap_or(443)`
unfoldable pub conflicts : Option (Text × Option ℕ) → Option (Text × Option ℕ) → Bool
conflicts (some (h, p)) (some (a, q)) = not (h == a) || not (unwrap_or 443 p == unwrap_or 443 q)
conflicts (some h) none = false
conflicts none a = false

module _ (http : HeaderLib) where
  -- What the functions read of a `hyper::Request`: its headers, its URI's authority, its version.
  pub record RequestHead : Type 0 where
    pub headers : http.HeaderMap
    pub authority : Option Text
    pub version : Version

  abbrev pub first_host : List http.Value → Result String (Option Text)
  first_host [] = ok none
  first_host (h ∷ hs) = ok_or (http.to_str h) "invalid Host header" >>= λ t. ok (some t)

  abbrev pub has_second : List http.Value → Bool
  has_second [] = false
  has_second (h ∷ []) = false
  has_second (h ∷ i ∷ hs) = true

  unfoldable pub resolve_request_host : RequestHead → Result String Text
  resolve_request_host request = do
    let hosts = http.get_all (text "host") request.headers
    raw ← first_host hosts
    refuse (has_second hosts) "multiple Host headers"
    header ← traverse normalize_authority raw
    authority ← traverse normalize_authority request.authority
    refuse (conflicts header authority) "Host header conflicts with request authority"
    refuse (is_http_2 request.version && not (is_some authority)) "HTTP/2 :authority is required"
    chosen ← ok_or (or_else authority header) "request authority is required"
    ok chosen.0
