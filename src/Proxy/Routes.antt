-- ===== src/Proxy/Routes.antt =====
-- src/http_proxy/routes.rs: the HTTP route table, from the configuration to a rewritten target.
pub mod Resolution
pub mod Build
use edge_gateway.Prelude.{
  ℕ, zero, suc, ◌+◌, String, Bool, true, false, not, ◌&&◌, ◌||◌, Option, none, some, List, [], ◌∷◌,
  ◌++◌, Result, ok, err, ◌>>=◌, ◌>>◌, refuse, guard, ok_or, map_err, ltb, if◌then◌else◌, is_empty,
  any, length, take, contains, ◌==◌, nat_eq, list_eq, pair_eq, bool_eq, unwrap_or,
}
use edge_gateway.Prelude.Text.{
  Text, text, chars, is_whitespace, is_control, ends_with_byte, strip_prefix as strip_text,
}
use edge_gateway.Prelude.Maps.{Map, get, insert}
use edge_gateway.Http.{UriLib}
use edge_gateway.Routing.{normalize_dns_host}
use edge_gateway.Proxy.Config.{FileUpstreamConfig, UpstreamConfig, ConfigError, validate}
use edge_gateway.Proxy.Path.{validate_http_path}

pub data PathMatch : Type 0 where
  exact prefix : PathMatch

pub data Rewrite : Type 0 where
  preserve strip_prefix replace_prefix : Rewrite

abbrev pub is_prefix : PathMatch → Bool
is_prefix exact = false
is_prefix prefix = true

-- `RouteSecurity` of src/security/client_address.rs.
pub record RouteSecurity : Type 0 where
  pub cloudflare_only : Bool

pub record FileHttpRouteConfig : Type 0 where
  pub id : Text
  pub host : Text
  pub path : Text
  pub path_match : PathMatch
  pub rewrite : Rewrite
  pub replacement_prefix : Option Text
  pub enabled : Bool
  pub security : RouteSecurity
  pub upstream : FileUpstreamConfig

pub record HttpRoute : Type 0 where
  pub id : Text
  pub host : Text
  pub path : Text
  pub path_match : PathMatch
  pub rewrite : Rewrite
  pub replacement_prefix : Option Text
  pub security : RouteSecurity
  pub upstream : UpstreamConfig

pub record HostRoutes : Type 0 where
  pub exact : Map Text HttpRoute
  pub prefixes : Map Text HttpRoute

pub record HttpRouteTable : Type 0 where
  pub by_host : Map Text HostRoutes
  pub configured_count : ℕ
  pub enabled_count : ℕ

-- `rfind(c)`
unfoldable pub rfind : ℕ → Text → Option ℕ
rfind c [] = none
rfind c (b ∷ s) = elim (rfind c s) [
  | some i ↦ some (suc i)
  | none ↦ if b == c then some 0 else none
]

-- The loop over the candidates, each the one before cut at its last slash.
unfoldable pub resolve_prefix : ℕ → Map Text HttpRoute → Text → Option HttpRoute
resolve_prefix zero prefixes candidate = none
resolve_prefix (suc fuel) prefixes candidate = elim (get candidate prefixes) [
  | some route ↦ some route
  | none ↦ elim (rfind b'/' candidate) [
    | none ↦ none
    | some slash ↦ elim slash [
      | zero ↦ get (text "/") prefixes
      | suc n ↦ resolve_prefix fuel prefixes (take (suc n) candidate)
    ]
  ]
]

unfoldable pub resolve : HttpRouteTable → Text → Text → Option HttpRoute
resolve table host path = elim (get host table.by_host) [
  | none ↦ none
  | some routes ↦ elim (get path routes.exact) [
    | some route ↦ some route
    | none ↦ resolve_prefix (suc (length path)) routes.prefixes path
  ]
]

rewritten_path : HttpRoute → Text → Result String Text
rewritten_path route path = elim route.rewrite [
  | preserve ↦ ok path
  | strip_prefix ↦ do
    suffix ← ok_or (strip_text path route.path) "route does not match"
    ok (if is_empty suffix then text "/" else suffix)
  | replace_prefix ↦ do
    suffix ← ok_or (strip_text path route.path) "route does not match"
    let result = unwrap_or [] route.replacement_prefix ++ suffix
    ok (if is_empty result then text "/" else result)
]

module _ (uris : UriLib) where
  unfoldable pub rewrite_target : HttpRoute → uris.Uri → Result String Text
  unfolding rewritten_path
  rewrite_target route uri = do
    validate_http_path (uris.path uri)
    path ← rewritten_path route (uris.path uri)
    ok (elim (uris.query uri) [ none ↦ path | some query ↦ path ++ (b'?' ∷ query) ])
