-- ===== src/Proxy/Config/Laws.antt =====
-- src/http_proxy/config.rs: what a validated upstream guarantees to the proxy.
use edge_gateway.Prelude.{
  ◌≡◌, ◌≤◌, ◌<◌, false, none, arith, ok, Result-cases, Option-cases, inr, inl,
}
use edge_gateway.Prelude.Text.{Text}
use edge_gateway.Net.Endpoint.{IsLocal}
use edge_gateway.Http.{UriLib}
use edge_gateway.Proxy.Config.{
  PoolConfig, FilePoolConfig, UpstreamConfig, FileUpstreamConfig, validate_pool, validate,
}

-- The bounds that the pool of a route relies on.
pub record IsBounded (p : PoolConfig) : Type 0 where
  pub connections : (0 < p.max_connections) × (p.max_connections ≤ 65536)
  pub active : (0 < p.max_active_requests) × (p.max_active_requests ≤ 65536)
  pub idle : p.max_idle_connections ≤ p.max_connections
  pub pending : p.max_pending_requests ≤ p.max_active_requests
  pub idle_timeout : (0 < p.idle_timeout) × (p.idle_timeout ≤ 3600)
  pub pending_timeout : (0 < p.pending_timeout) × (p.pending_timeout ≤ 3600)
  pub header_timeout : (0 < p.response_header_timeout) × (p.response_header_timeout ≤ 3600)
  pub body_timeout : (0 < p.body_idle_timeout) × (p.body_idle_timeout ≤ 3600)

validate_pool-IsBounded :
    (f : FilePoolConfig) (p : PoolConfig) → validate_pool f ≡ ok p → IsBounded p
unfolding validate_pool
validate_pool-IsBounded f p h = ground arith

-- A validated upstream is a port of the machine itself, within the pool's bounds; a certificate file
-- goes with TLS only, and the endpoint's text stays as it was.
pub record IsUsable (f : FileUpstreamConfig) (c : UpstreamConfig) : Type 0 where
  pub is_local : IsLocal c.address
  pub bounded : IsBounded c.pool
  pub no_ca_file : c.tls ≡ false → c.ca_file ≡ none
  pub same_endpoint : c.endpoint ≡ f.endpoint

pub validate-IsUsable :
    (uris : UriLib) (directory : Text) (f : FileUpstreamConfig) (c : UpstreamConfig)
    → validate uris directory f ≡ ok c
    → IsUsable f c
unfolding validate
validate-IsUsable uris directory f c h = elim (Result-cases (uris.parse f.endpoint)) [
  | inr (e, bad) ↦ absurd (ground arith)
  | inl (uri, parsed) ↦ elim (Option-cases (uris.port_u16 uri)) [
    | inl missing ↦ absurd (ground arith)
    | inr (port, given) ↦ record {
      is_local = record {
        loopback = ground arith;
        port_pos = ground arith;
        port_bounded = ground (arith, uris.port_u16-lt uri port given);
      };
      bounded = validate_pool-IsBounded f.pool c.pool (ground arith);
      no_ca_file = λ t. ground arith;
      same_endpoint = ground arith;
    }
  ]
]
