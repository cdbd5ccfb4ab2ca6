-- ===== src/Backends.antt =====
-- src/routes/table.rs: the checks of a WebSocket route's path and of its backend.
pub mod Table
pub mod Laws
mod Tests
use edge_gateway.Prelude.{
  ℕ, String, Bool, true, false, not, ◌&&◌, ◌||◌, Option, none, some, List, [], ◌∷◌, Result, ok, err,
  ◌>>=◌, ◌>>◌, refuse, guard, ok_or, map_err, if◌then◌else◌, is_empty, any, length, ltb, ◌==◌,
  nat_eq, list_eq, unwrap_or,
}
use edge_gateway.Prelude.Text.{Text, text, chars, is_whitespace, is_control, starts_with, split}
use edge_gateway.Net.{is_loopback}
use edge_gateway.Net.Endpoint.{SocketAddr, parse_host_ip}
use edge_gateway.Http.{UriLib, HeaderLib}

-- The reason of `InvalidBackend`: a fixed text, or one with a value.
pub data BackendReason : Type 0 where
  because : String → BackendReason
  not_a_uri invalid_target unsupported_scheme : Text → BackendReason

pub data RouteError : Type 0 where
  empty_id : RouteError
  id_too_long invalid_id invalid_path path_too_long duplicate_id : Text → RouteError
  duplicate_host_path : Text → Text → RouteError
  invalid_host : Text → String → RouteError
  invalid_backend : Text → BackendReason → RouteError

pub data RouteNamespace : Type 0 where
  pc mobile uat custom : RouteNamespace

unfoldable pub namespace_of : Text → RouteNamespace
namespace_of path =
    if starts_with path (text "/api/pc/")
    then pc
    else if starts_with path (text "/api/mob/")
    then mobile
    else if starts_with path (text "/api/uat/")
    then uat
    else custom

-- The segments behind the first slash.
abbrev tail_segments : Text → List Text
tail_segments [] = []
tail_segments (b ∷ rest) = split b'/' rest

unfoldable pub validate_public_path : Text → Result RouteError RouteNamespace
unfolding namespace_of
validate_public_path path = do
  refuse (ltb 2048 (length path)) (path_too_long path)
  refuse
      (not (starts_with path (text "/"))
        || any (λ b. b == b'?' || b == b'#' || b == b'\\') path
        || any is_whitespace (chars path)
        || any is_control (chars path))
      (invalid_path path)
  refuse
      (not (path == text "/")
        && any (λ s. is_empty s || s == text "." || s == text "..") (tail_segments path))
      (invalid_path path)
  ok (namespace_of path)

module _ (uris : UriLib) (http : HeaderLib) where
  pub record WebSocketBackendEndpoint : Type 0 where
    pub display : Text
    pub address : SocketAddr
    pub request_target : uris.Uri
    pub host_header : http.Value

  pub record TcpBackendEndpoint : Type 0 where
    pub display : Text
    pub address : SocketAddr

  pub data BackendEndpoint : Type 0 where
    websocket : WebSocketBackendEndpoint → BackendEndpoint
    tcp : TcpBackendEndpoint → BackendEndpoint

  -- The port of the URI, or the default where none is required.
  unfoldable pub choose_port : Option ℕ → Option ℕ → Bool → Option ℕ
  choose_port (some port) default required = some port
  choose_port none default required = if required then none else default

  unfoldable pub parse_loopback_authority :
      Text → uris.Uri → Option ℕ → Bool → Result RouteError (SocketAddr × Text)
  unfolding choose_port
  parse_loopback_authority value uri default required = do
    let bad = λ (reason : String). invalid_backend value (because reason)
    authority ← ok_or (uris.authority uri) (bad "authority is required")
    refuse (any (λ b. b == b'@') authority) (bad "userinfo is not allowed")
    host ← ok_or (uris.host uri) (bad "host is required")
    ip ← ok_or (parse_host_ip host) (bad "host must be an IPv4 or IPv6 loopback address")
    guard (is_loopback ip) (bad "host must be a loopback address")
    port ←
        ok_or (choose_port (uris.port_u16 uri) default required)
          (bad "an explicit port is required")
    refuse (port == 0) (bad "port must not be zero")
    ok (record { ip = ip; port = port }, authority)

  unfoldable pub websocket_from_uri : Text → uris.Uri → Result RouteError WebSocketBackendEndpoint
  websocket_from_uri value uri = do
    place ← parse_loopback_authority value uri (some 80) false
    target ←
        map_err (λ m. invalid_backend value (invalid_target m))
          (uris.parse (unwrap_or (text "/") (uris.path_and_query uri)))
    host_header ←
        ok_or (http.from_str place.1) (invalid_backend value (because "invalid authority"))
    ok (record {
      display = value;
      address = place.0;
      request_target = target;
      host_header = host_header;
    })

  unfoldable pub tcp_from_uri : Text → uris.Uri → Result RouteError TcpBackendEndpoint
  tcp_from_uri value uri = do
    place ← parse_loopback_authority value uri none true
    refuse (not (unwrap_or (text "/") (uris.path_and_query uri) == text "/"))
        (invalid_backend value (because "tcp backend URL must not contain a path or query"))
    ok (record { display = value; address = place.0 })

  by_scheme : Text → uris.Uri → Option Text → Result RouteError BackendEndpoint
  by_scheme value uri none =
      err (invalid_backend value (because "scheme is required; expected ws or tcp"))
  by_scheme value uri (some scheme) =
      if scheme == text "ws"
      then (websocket_from_uri value uri >>= λ e. ok (websocket e))
      else if scheme == text "tcp"
      then (tcp_from_uri value uri >>= λ e. ok (tcp e))
      else err (invalid_backend value (unsupported_scheme scheme))

  unfoldable pub parse_backend : Text → Result RouteError BackendEndpoint
  unfolding by_scheme
  parse_backend value = do
    refuse (any (λ b. b == b'#') value) (invalid_backend value (because "fragment is not allowed"))
    uri ← map_err (λ m. invalid_backend value (not_a_uri m)) (uris.parse value)
    by_scheme value uri (uris.scheme_str uri)

  abbrev pub address_of : BackendEndpoint → SocketAddr
  address_of (websocket e) = e.address
  address_of (tcp e) = e.address
