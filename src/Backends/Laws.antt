-- ===== src/Backends/Laws.antt =====
-- src/routes/table.rs: where the backend of a WebSocket route is.
use edge_gateway.Prelude.{
  ◌≡◌, true, ok, some, none, Option-cases, Result-cases, inl, inr, arith, Bool-cases, ◌==◌, list_eq,
  nat_eq, Option, ◌<◌,
}
use edge_gateway.Prelude.Text.{Text, text}
use edge_gateway.Net.Endpoint.{SocketAddr, IsLocal}
use edge_gateway.Http.{UriLib, HeaderLib}
use edge_gateway.Backends.{
  BackendEndpoint, choose_port, parse_loopback_authority, websocket_from_uri, tcp_from_uri,
  by_scheme, parse_backend, address_of, ℕ, false, Bool,
}

module _ (uris : UriLib) (http : HeaderLib) (value : Text) (uri : uris.Uri) where
  authority-IsLocal :
      (default : Option ℕ) (required : Bool) (address : SocketAddr) (authority : Text)
      → ((p : ℕ) → default ≡ some p → p < 65536)
      → parse_loopback_authority uris http value uri default required ≡ ok (address, authority)
      → IsLocal address
  unfolding parse_loopback_authority choose_port
  authority-IsLocal default required address authority fits h =
      elim (Option-cases (uris.port_u16 uri)) [
        | inr (port, given) ↦ record {
          loopback = ground arith;
          port_pos = ground arith;
          port_bounded = ground (arith, uris.port_u16-lt uri port given);
        }
        | inl missing ↦ elim (Option-cases default) [
          | inl no_default ↦ absurd (ground arith)
          | inr (port, given) ↦ record {
            loopback = ground arith;
            port_pos = ground arith;
            port_bounded = ground (arith, fits port given);
          }
        ]
      ]

  by_scheme-IsLocal :
      (scheme : Option Text) (b : BackendEndpoint uris http)
      → by_scheme uris http value uri scheme ≡ ok b
      → IsLocal (address_of uris http b)
  unfolding by_scheme websocket_from_uri tcp_from_uri
  by_scheme-IsLocal none b h = absurd (ground arith)
  by_scheme-IsLocal (some scheme) b h = elim (Bool-cases (scheme == text "ws")) [
    | inl ws ↦ elim (Result-cases (parse_loopback_authority uris http value uri (some 80) false)) [
      | inr (e, bad) ↦ absurd (ground arith)
      | inl ((address, authority), good) ↦
          ground
            (arith, authority-IsLocal (some 80) false address authority (λ p e. ground arith) good)
    ]
    | inr other ↦ elim (Result-cases (parse_loopback_authority uris http value uri none true)) [
      | inr (e, bad) ↦ absurd (ground arith)
      | inl ((address, authority), good) ↦
          ground (arith, authority-IsLocal none true address authority (λ p e. ground arith) good)
    ]
  ]

-- A WebSocket or TCP backend that the parser accepts is a nonzero port of a loopback address.
pub parse_backend-IsLocal :
    (uris : UriLib) (http : HeaderLib) (value : Text) (b : BackendEndpoint uris http)
    → parse_backend uris http value ≡ ok b
    → IsLocal (address_of uris http b)
unfolding parse_backend
parse_backend-IsLocal uris http value b h = elim (Result-cases (uris.parse value)) [
  | inr (e, bad) ↦ absurd (ground arith)
  | inl (uri, parsed) ↦ by_scheme-IsLocal uris http value uri (uris.scheme_str uri) b (ground arith)
]
