-- ===== src/Config/Server/Laws.antt =====
-- src/config/mod.rs: the limits of the section `server` are accepted exactly within their ranges.
use edge_gateway.Prelude.{refl, ℕ, ◌*◌, ◌≤◌, ◌<◌, ◌≡◌, ◌↔◌, ok, arith, false}
use edge_gateway.Config.{validate_seconds, validate_size, validate_count, String, ltb}
use edge_gateway.Config.Server.{ServerConfig, FileServerConfig, validate_limits}

-- From one to the limit.
abbrev pub InRange : ℕ → ℕ → Type 0
InRange value maximum = (0 < value) × (value ≤ maximum)

-- The ranges of every number of the section, of the upstream connections and of the routes.
pub record InLimits (route_count max_upstream : ℕ) (s : FileServerConfig) : Type 0 where
  pub handshake : InRange s.tls_handshake_timeout_seconds 300
  pub upgrade : InRange s.websocket_upgrade_timeout_seconds 300
  pub connect : InRange s.backend_connect_timeout_seconds 300
  pub grace : InRange s.shutdown_grace_seconds 600
  pub message_size : InRange s.max_websocket_message_size_bytes (64 * 1024 * 1024)
  pub grpc_streams : InRange s.max_grpc_concurrent_streams_per_backend 4096
  pub routes : route_count ≤ 4096
  pub upstream : InRange max_upstream 1000000
  pub connections : InRange s.max_connections 1000000
  pub handshakes : InRange s.max_concurrent_tls_handshakes 65536
  pub requests : InRange s.max_active_requests 1000000
  pub header_count : InRange s.max_http_header_count 1024
  pub header_bytes : (8192 ≤ s.max_http_header_bytes) × (s.max_http_header_bytes ≤ 1048576)
  pub streams : InRange s.max_http2_concurrent_streams 65536
  pub send_buffer : InRange s.max_http2_send_buffer_bytes 1048576
  pub header_read : InRange s.http_header_read_timeout_seconds 300
  pub room : s.max_concurrent_tls_handshakes ≤ s.max_connections

accepted-InLimits :
    (route_count max_upstream : ℕ) (s : FileServerConfig) (c : ServerConfig) (upstream : ℕ)
    → validate_limits route_count max_upstream s ≡ ok (c, upstream)
    → InLimits route_count max_upstream s
unfolding validate_limits validate_seconds validate_size validate_count
accepted-InLimits route_count max_upstream s c upstream h = record {
  handshake = ground arith;
  upgrade = ground arith;
  connect = ground arith;
  grace = ground arith;
  message_size = ground arith;
  grpc_streams = ground arith;
  routes = ground arith;
  upstream = ground arith;
  connections = ground arith;
  handshakes = ground arith;
  requests = ground arith;
  header_count = ground arith;
  header_bytes = ground arith;
  streams = ground arith;
  send_buffer = ground arith;
  header_read = ground arith;
  room = ground arith;
}

-- The section with its names in the runtime.
abbrev pub server_of : FileServerConfig → ServerConfig
server_of s = record {
  listen = s.listen;
  tls_handshake_timeout = s.tls_handshake_timeout_seconds;
  websocket_upgrade_timeout = s.websocket_upgrade_timeout_seconds;
  backend_connect_timeout = s.backend_connect_timeout_seconds;
  shutdown_grace = s.shutdown_grace_seconds;
  max_websocket_message_size = s.max_websocket_message_size_bytes;
  max_grpc_concurrent_streams_per_backend = s.max_grpc_concurrent_streams_per_backend;
  max_connections = s.max_connections;
  max_concurrent_tls_handshakes = s.max_concurrent_tls_handshakes;
  max_active_requests = s.max_active_requests;
  max_http_header_count = s.max_http_header_count;
  max_http_header_bytes = s.max_http_header_bytes;
  max_http2_concurrent_streams = s.max_http2_concurrent_streams;
  max_http2_send_buffer_bytes = s.max_http2_send_buffer_bytes;
  http_header_read_timeout = s.http_header_read_timeout_seconds;
}

accepted-server_of :
    (route_count max_upstream : ℕ) (s : FileServerConfig) (c : ServerConfig) (upstream : ℕ)
    → validate_limits route_count max_upstream s ≡ ok (c, upstream)
    → (c ≡ server_of s) × (upstream ≡ max_upstream)
unfolding validate_limits validate_seconds validate_size validate_count
accepted-server_of route_count max_upstream s c upstream h = ground arith

InRange-seconds : (name : String) (v m : ℕ) → InRange v m → validate_seconds name v m ≡ ok v
unfolding validate_seconds
InRange-seconds name v m h = ground arith

InRange-size : (name : String) (v m : ℕ) → InRange v m → validate_size name v m ≡ ok v
unfolding validate_size
InRange-size name v m h = ground arith

InRange-count : (name : String) (v m : ℕ) → InRange v m → validate_count name v m ≡ ok v
unfolding validate_count
InRange-count name v m h = ground arith

not_below : (a b : ℕ) → b ≤ a → ltb a b ≡ false
not_below a b h = ground arith

InLimits-accepted :
    (route_count max_upstream : ℕ) (s : FileServerConfig)
    → InLimits route_count max_upstream s
    → validate_limits route_count max_upstream s ≡ ok (server_of s, max_upstream)
unfolding validate_limits
InLimits-accepted route_count max_upstream s l =
    let bytes : InRange s.max_http_header_bytes 1048576 = ground (arith, l.header_bytes) in
    rw
      (
        InRange-seconds _ _ _ l.handshake,
        InRange-seconds _ _ _ l.upgrade,
        InRange-seconds _ _ _ l.connect,
        InRange-seconds _ _ _ l.grace,
        InRange-size _ _ _ l.message_size,
        InRange-count _ _ _ l.grpc_streams,
        not_below _ _ l.routes,
        InRange-count _ _ _ l.upstream,
        InRange-count _ _ _ l.connections,
        InRange-count _ _ _ l.handshakes,
        InRange-count _ _ _ l.requests,
        InRange-count _ _ _ l.header_count,
        InRange-count _ _ _ bytes,
        InRange-count _ _ _ l.streams,
        InRange-count _ _ _ l.send_buffer,
        InRange-seconds _ _ _ l.header_read,
        not_below _ _ l.header_bytes.0,
        not_below _ _ l.room,
      )
      refl

-- The limits are accepted exactly when every number is in its range, there are at most 4096 routes,
-- headers may have 8192 bytes, and there are no more handshakes than connections; and the runtime
-- gets them as they are.
pub validate_limits_iff :
    (route_count max_upstream : ℕ) (s : FileServerConfig) (c : ServerConfig) (upstream : ℕ)
    → (validate_limits route_count max_upstream s ≡ ok (c, upstream))
      ↔ (InLimits route_count max_upstream s × (c ≡ server_of s) × (upstream ≡ max_upstream))
validate_limits_iff route_count max_upstream s c upstream = (
  λ h.
      let same = accepted-server_of route_count max_upstream s c upstream h in
      (accepted-InLimits route_count max_upstream s c upstream h, same.0, same.1),
  λ g. rw (g.1, g.2) (InLimits-accepted route_count max_upstream s g.0),
)
