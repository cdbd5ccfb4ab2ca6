-- ===== src/Config/Server.antt =====
-- src/config/mod.rs: the limits of the section `server`, of the upstream connections and of the
-- number of routes.
pub mod Laws
use edge_gateway.Prelude.{ℕ, ◌*◌, Bool, Result, ok, ◌>>=◌, ◌>>◌, refuse, ltb}
use edge_gateway.Net.{v4}
use edge_gateway.Net.Endpoint.{SocketAddr}
use edge_gateway.Config.{
  ConfigError, invalid, message, validate_seconds, validate_size, validate_count,
}

pub record ServerConfig : Type 0 where
  pub listen : SocketAddr
  pub tls_handshake_timeout : ℕ
  pub websocket_upgrade_timeout : ℕ
  pub backend_connect_timeout : ℕ
  pub shutdown_grace : ℕ
  pub max_websocket_message_size : ℕ
  pub max_grpc_concurrent_streams_per_backend : ℕ
  pub max_connections : ℕ
  pub max_concurrent_tls_handshakes : ℕ
  pub max_active_requests : ℕ
  pub max_http_header_count : ℕ
  pub max_http_header_bytes : ℕ
  pub max_http2_concurrent_streams : ℕ
  pub max_http2_send_buffer_bytes : ℕ
  pub http_header_read_timeout : ℕ

pub record FileServerConfig : Type 0 where
  pub listen : SocketAddr
  pub tls_handshake_timeout_seconds : ℕ
  pub websocket_upgrade_timeout_seconds : ℕ
  pub backend_connect_timeout_seconds : ℕ
  pub shutdown_grace_seconds : ℕ
  pub max_websocket_message_size_bytes : ℕ
  pub max_grpc_concurrent_streams_per_backend : ℕ
  pub max_connections : ℕ
  pub max_concurrent_tls_handshakes : ℕ
  pub max_active_requests : ℕ
  pub max_http_header_count : ℕ
  pub max_http_header_bytes : ℕ
  pub max_http2_concurrent_streams : ℕ
  pub max_http2_send_buffer_bytes : ℕ
  pub http_header_read_timeout_seconds : ℕ

-- The numbers that serde takes for fields that the file leaves out, over a listening address.
abbrev pub default_server : SocketAddr → FileServerConfig
default_server listen = record {
  listen = listen;
  tls_handshake_timeout_seconds = 10;
  websocket_upgrade_timeout_seconds = 10;
  backend_connect_timeout_seconds = 10;
  shutdown_grace_seconds = 30;
  max_websocket_message_size_bytes = 1024 * 1024;
  max_grpc_concurrent_streams_per_backend = 256;
  max_connections = 20000;
  max_concurrent_tls_handshakes = 512;
  max_active_requests = 20000;
  max_http_header_count = 100;
  max_http_header_bytes = 32768;
  max_http2_concurrent_streams = 256;
  max_http2_send_buffer_bytes = 65536;
  http_header_read_timeout_seconds = 10;
}

-- The number of configured routes, and the upstream connections of the section `http_proxy`, with the
-- section `server`.
unfoldable pub validate_limits :
    (route_count max_upstream : ℕ) → FileServerConfig → Result ConfigError (ServerConfig × ℕ)
validate_limits route_count max_upstream s = do
  handshake ←
      validate_seconds "server.tls_handshake_timeout_seconds" s.tls_handshake_timeout_seconds 300
  upgrade ←
      validate_seconds "server.websocket_upgrade_timeout_seconds"
        s.websocket_upgrade_timeout_seconds 300
  connect ←
      validate_seconds "server.backend_connect_timeout_seconds" s.backend_connect_timeout_seconds
        300
  grace ← validate_seconds "server.shutdown_grace_seconds" s.shutdown_grace_seconds 600
  message_size ←
      validate_size "server.max_websocket_message_size_bytes" s.max_websocket_message_size_bytes
        (64 * 1024 * 1024)
  grpc_streams ←
      validate_count "server.max_grpc_concurrent_streams_per_backend"
        s.max_grpc_concurrent_streams_per_backend 4096
  refuse (ltb 4096 route_count) (invalid (message "total configured routes must not exceed 4096"))
  upstream ← validate_count "http_proxy.max_connections" max_upstream 1000000
  connections ← validate_count "server.max_connections" s.max_connections 1000000
  handshakes ←
      validate_count "server.max_concurrent_tls_handshakes" s.max_concurrent_tls_handshakes 65536
  requests ← validate_count "server.max_active_requests" s.max_active_requests 1000000
  header_count ← validate_count "server.max_http_header_count" s.max_http_header_count 1024
  header_bytes ← validate_count "server.max_http_header_bytes" s.max_http_header_bytes 1048576
  streams ←
      validate_count "server.max_http2_concurrent_streams" s.max_http2_concurrent_streams 65536
  send_buffer ←
      validate_count "server.max_http2_send_buffer_bytes" s.max_http2_send_buffer_bytes 1048576
  header_read ←
      validate_seconds "server.http_header_read_timeout_seconds" s.http_header_read_timeout_seconds
        300
  refuse (ltb header_bytes 8192)
      (invalid (message "server.max_http_header_bytes must be at least 8192"))
  refuse (ltb connections handshakes)
      (invalid (message "TLS handshake capacity must not exceed max_connections"))
  ok (
    record {
      listen = s.listen;
      tls_handshake_timeout = handshake;
      websocket_upgrade_timeout = upgrade;
      backend_connect_timeout = connect;
      shutdown_grace = grace;
      max_websocket_message_size = message_size;
      max_grpc_concurrent_streams_per_backend = grpc_streams;
      max_connections = connections;
      max_concurrent_tls_handshakes = handshakes;
      max_active_requests = requests;
      max_http_header_count = header_count;
      max_http_header_bytes = header_bytes;
      max_http2_concurrent_streams = streams;
      max_http2_send_buffer_bytes = send_buffer;
      http_header_read_timeout = header_read;
    },
    upstream,
  )
