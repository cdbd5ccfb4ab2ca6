-- ===== src/Proxy/Routes/Build.antt =====
-- src/http_proxy/routes.rs: `HttpRouteTable::build`, the checks of each entry and the loop.
pub mod Laws
pub mod Serving
pub mod Hosts
use edge_gateway.Prelude.{
  ℕ, ◌+◌, String, Bool, true, false, not, ◌&&◌, ◌||◌, Option, none, some, List, [], ◌∷◌, Result, ok,
  err, ◌>>=◌, ◌>>◌, refuse, map_err, ltb, if◌then◌else◌, is_empty, any, length, contains, ◌==◌,
  nat_eq, list_eq, pair_eq, bool_eq, unwrap_or,
}
use edge_gateway.Prelude.Text.{Text, text, chars, is_whitespace, is_control, ends_with_byte}
use edge_gateway.Prelude.Maps.{Map, get, insert}
use edge_gateway.Http.{UriLib}
use edge_gateway.Routing.{normalize_dns_host}
use edge_gateway.Proxy.Config.{UpstreamConfig, ConfigError, validate}
use edge_gateway.Proxy.Path.{validate_http_path}
use edge_gateway.Proxy.Routes.{
  PathMatch, exact, prefix, Rewrite, preserve, strip_prefix, replace_prefix, is_prefix,
  FileHttpRouteConfig, HttpRoute, HostRoutes, HttpRouteTable,
}

-- The messages of `build`; four of them are formatted with a value.
pub data RouteTableError : Type 0 where
  message : String → RouteTableError
  duplicate_id : Text → RouteTableError
  duplicate_match : Text → Text → RouteTableError
  shadowed : Text → Text → RouteTableError
  invalid_upstream : Text → ConfigError → RouteTableError

-- A host and a path; and whether the match is a prefix match.
abbrev pub RouteKey : Type 0
RouteKey = (Text × Text) × Bool

-- The local variables of the loop.
pub record Building : Type 0 where
  pub ids : List Text
  pub keys : List RouteKey
  pub by_host : Map Text HostRoutes
  pub enabled_count : ℕ

check_id : Text → Result RouteTableError (Unit {0})
check_id id =
    refuse
      (is_empty id || ltb 128 (length id) || any (λ c. is_whitespace c || is_control c) (chars id))
      (message "http_routes.id must be 1..128 bytes without control/whitespace")

check_path : FileHttpRouteConfig → Result RouteTableError (Unit {0})
check_path spec = do
  map_err message (validate_http_path spec.path)
  refuse (spec.path == text "/health/live" || spec.path == text "/health/ready")
      (message "HTTP route uses a reserved health path")
  refuse (is_prefix spec.path_match && not (spec.path == text "/") && ends_with_byte spec.path b'/')
      (message "segment prefixes must not end in slash (except /)")

abbrev pub is_strip : Rewrite → Bool
is_strip preserve = false
is_strip strip_prefix = true
is_strip replace_prefix = false

check_replacement : FileHttpRouteConfig → Text → Result RouteTableError (Unit {0})
check_replacement spec replacement = do
  map_err message (validate_http_path replacement)
  refuse
      (ends_with_byte replacement b'/'
        && not (replacement == text "/" && not (is_prefix spec.path_match)))
      (message "replacement_prefix must not end in slash (except exact replacement /)")
  refuse (spec.path == text "/" && is_prefix spec.path_match)
      (message "replace_prefix of / is ambiguous; use preserve or a non-root prefix")

-- `match (spec.rewrite, &spec.replacement_prefix)`
check_rewrite_pair : FileHttpRouteConfig → Rewrite → Option Text → Result RouteTableError (Unit {0})
unfolding check_replacement
check_rewrite_pair spec replace_prefix (some replacement) = check_replacement spec replacement
check_rewrite_pair spec replace_prefix none =
    err (message "replace_prefix requires replacement_prefix")
check_rewrite_pair spec preserve (some replacement) =
    err (message "replacement_prefix is only valid with replace_prefix")
check_rewrite_pair spec strip_prefix (some replacement) =
    err (message "replacement_prefix is only valid with replace_prefix")
check_rewrite_pair spec preserve none = ok tt
check_rewrite_pair spec strip_prefix none = ok tt

check_rewrite : FileHttpRouteConfig → Result RouteTableError (Unit {0})
unfolding check_rewrite_pair
check_rewrite spec = do
  refuse (is_strip spec.rewrite && (not (is_prefix spec.path_match) || spec.path == text "/"))
      (message "strip_prefix requires a non-root segment prefix match")
  check_rewrite_pair spec spec.rewrite spec.replacement_prefix

abbrev pub route_for : FileHttpRouteConfig → Text → UpstreamConfig → HttpRoute
route_for spec host upstream = record {
  id = spec.id;
  host = host;
  path = spec.path;
  path_match = spec.path_match;
  rewrite = spec.rewrite;
  replacement_prefix = spec.replacement_prefix;
  security = spec.security;
  upstream = upstream;
}

abbrev pub no_routes : HostRoutes
no_routes = record { exact = []; prefixes = [] }

abbrev pub put_route : PathMatch → HttpRoute → HostRoutes → HostRoutes
put_route exact route routes = record routes { exact = insert route.path route routes.exact }
put_route prefix route routes = record routes { prefixes = insert route.path route routes.prefixes }

-- `by_host.entry(host).or_insert_with(..)` and the insertion by the kind of match.
unfoldable pub place : HttpRoute → Map Text HostRoutes → Map Text HostRoutes
place route by_host =
    insert route.host
      (put_route route.path_match route (unwrap_or no_routes (get route.host by_host))) by_host

abbrev pub no_entries : Building
no_entries = record { ids = []; keys = []; by_host = []; enabled_count = 0 }

module _ (uris : UriLib) (directory : Text) (reserved : List (Text × Text)) where
  -- One round of the loop.
  unfoldable pub add_route : Building → FileHttpRouteConfig → Result RouteTableError Building
  unfolding check_id check_path check_rewrite place
  add_route b spec = do
    check_id spec.id
    refuse (contains spec.id b.ids) (duplicate_id spec.id)
    host ← map_err message (normalize_dns_host spec.host)
    check_path spec
    let key : RouteKey = ((host, spec.path), is_prefix spec.path_match)
    refuse (contains key b.keys) (duplicate_match host spec.path)
    refuse (not (is_prefix spec.path_match) && contains (host, spec.path) reserved)
        (shadowed host spec.path)
    check_rewrite spec
    upstream ← map_err (invalid_upstream spec.id) (validate uris directory spec.upstream)
    ok (record {
      ids = spec.id ∷ b.ids;
      keys = key ∷ b.keys;
      by_host = if spec.enabled then place (route_for spec host upstream) b.by_host else b.by_host;
      enabled_count = if spec.enabled then b.enabled_count + 1 else b.enabled_count;
    })

  unfoldable pub add_routes : Building → List FileHttpRouteConfig → Result RouteTableError Building
  unfolding add_route
  add_routes b [] = ok b
  add_routes b (spec ∷ specs) = do b' ← add_route b spec; add_routes b' specs

  unfoldable pub build : List FileHttpRouteConfig → Result RouteTableError HttpRouteTable
  unfolding add_routes
  build specs = do
    refuse (ltb 4096 (length specs)) (message "http_routes exceeds 4096 entries")
    b ← add_routes no_entries specs
    ok (record {
      by_host = b.by_host;
      configured_count = length specs;
      enabled_count = b.enabled_count;
    })
