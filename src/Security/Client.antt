-- ===== src/Security/Client.antt =====
-- src/security/client_address.rs: who the client of a request is, and the headers that say so.
pub mod Headers
mod Tests
use edge_gateway.Prelude.{
  ◌≡◌, String, Bool, true, false, not, ◌&&◌, ◌||◌, Option, none, some, List, [], ◌∷◌, Result, ok,
  err, ◌>>=◌, ◌>>◌, refuse, ok_or, if◌then◌else◌, is_empty, any, filter, ◌==◌, nat_eq, list_eq,
  option_eq,
}
use edge_gateway.Prelude.Text.{Text, text, starts_with}
use edge_gateway.Net.{IpAddr}
use edge_gateway.Net.Endpoint.{SocketAddr}
use edge_gateway.Net.Parse.{parse_ip}
use edge_gateway.Http.{HeaderLib}
use edge_gateway.Http.Removal.{remove_names}
use edge_gateway.Proxy.Routes.{RouteSecurity}
use edge_gateway.Security.Network.{IpNetwork, contains, normalize_ip}
use edge_gateway.Security.Blocking.{ResolvedClientAddress, direct_peer, cf_connecting_ip}

-- The networks that the policy reads: the ones of Cloudflare at this moment, and the health peers'.
pub record ClientAddressPolicy : Type 0 where
  pub cloudflare : List IpNetwork
  pub health_peer_networks : List IpNetwork

abbrev pub within : List IpNetwork → IpAddr → Bool
within networks ip = any (λ n. contains n ip) networks

unfoldable pub permits_health_peer : ClientAddressPolicy → SocketAddr → Bool
permits_health_peer policy peer = within policy.health_peer_networks peer.ip

unfoldable pub is_internal : Text → Bool
is_internal name =
    starts_with name (text "x-edge-gateway-") || starts_with name (text "x-forwarded-")

unfoldable pub is_cloudflare : Text → Bool
is_cloudflare name = starts_with name (text "cf-")

abbrev pub client_headers : List Text
client_headers =
    text "cf-connecting-ip"
    ∷ text "cf-connecting-ipv6"
    ∷ text "true-client-ip"
    ∷ text "x-real-ip"
    ∷ text "forwarded"
    ∷ text "x-original-url"
    ∷ text "x-rewrite-url"
    ∷ []

module _ (http : HeaderLib) where
  -- The only value of a header.
  single_value : List http.Value → Result String http.Value
  single_value [] = err "missing CF-Connecting-IP from trusted CF peer"
  single_value (v ∷ []) = ok v
  single_value (v ∷ w ∷ vs) = err "multiple CF-Connecting-IP headers"

  unfoldable pub resolve_client_address :
      ClientAddressPolicy
      → SocketAddr
      → http.HeaderMap
      → RouteSecurity
      → Result String ResolvedClientAddress
  unfolding single_value
  resolve_client_address policy peer headers security =
      if not (within policy.cloudflare peer.ip)
      then (do
        refuse security.cloudflare_only "route requires a Cloudflare origin peer"
        ok (record {
          peer = peer;
          client_ip = normalize_ip peer.ip;
          client_ip_source = direct_peer;
          trusted_proxy = false;
        }))
      else (do
        value ← single_value (http.get_all (text "cf-connecting-ip") headers)
        shown ← ok_or (http.to_str value) "invalid CF-Connecting-IP"
        address ← ok_or (parse_ip shown) "invalid CF-Connecting-IP"
        ok (record {
          peer = peer;
          client_ip = normalize_ip address;
          client_ip_source = cf_connecting_ip;
          trusted_proxy = true;
        }))

  -- The value of the header when it has one value only, read as text.
  unfoldable pub only_text : List http.Value → Option Text
  only_text [] = none
  only_text (v ∷ []) = http.to_str v
  only_text (v ∷ w ∷ vs) = none

  unfoldable pub insert_address : Bool → http.Value → http.HeaderMap → http.HeaderMap
  insert_address trusted value h =
      let named =
        http.insert (text "x-real-ip") value (http.insert (text "x-forwarded-for") value h) in
      if trusted then http.insert (text "cf-connecting-ip") value named else named

  -- `show` is `IpAddr::to_string`.
  unfoldable pub sanitize_client_address_headers :
      (show : IpAddr → Text) → http.HeaderMap → ResolvedClientAddress → http.HeaderMap
  sanitize_client_address_headers show headers address =
      let is_http =
        address.trusted_proxy
        && (only_text (http.get_all (text "x-forwarded-proto") headers) == some (text "http")) in
      let outer = remove_names http (filter is_internal (http.keys headers)) headers in
      let plain = remove_names http client_headers outer in
      let clean =
        if address.trusted_proxy
        then plain
        else remove_names http (filter is_cloudflare (http.keys plain)) plain in
      let named : http.HeaderMap = elim (http.from_str (show address.client_ip)) [
        | none ↦ clean
        | some value ↦ insert_address address.trusted_proxy value clean
      ] in
      http.insert (text "x-forwarded-proto")
        (http.from_static (if is_http then text "http" else text "https")) named
