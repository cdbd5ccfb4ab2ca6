-- ===== src/Config/Fallback.antt =====
-- src/config/mod.rs: the section `fallback`.
use edge_gateway.Prelude.{
  Bool, ◌||◌, Option, none, some, List, [], ◌∷◌, Result, ok, ◌>>=◌, ◌>>◌, refuse, map_err, ltb,
  if◌then◌else◌, is_empty, length, contains, nat_eq, list_eq,
}
use edge_gateway.Prelude.Text.{Text}
use edge_gateway.Http.{UriLib}
use edge_gateway.Routing.{normalize_dns_host}
use edge_gateway.Proxy.Config.{UpstreamConfig, FileUpstreamConfig, validate}
use edge_gateway.Proxy.Routes.{RouteSecurity}
use edge_gateway.Config.{
  ConfigError, invalid, message, rejected, bad_upstream, duplicate_fallback_host,
}

pub record FallbackConfig : Type 0 where
  pub hosts : List Text
  pub security : RouteSecurity
  pub upstream : UpstreamConfig

unfoldable pub permits_host : FallbackConfig → Text → Bool
permits_host c host = contains host c.hosts

pub record FileFallbackConfig : Type 0 where
  pub hosts : List Text
  pub enabled : Bool
  pub security : RouteSecurity
  pub upstream : FileUpstreamConfig

-- The loop over the names, with the set so far.
unfoldable pub collect_hosts : List Text → List Text → Result ConfigError (List Text)
collect_hosts hosts [] = ok hosts
collect_hosts hosts (raw ∷ raws) = do
  host ← map_err (λ reason. invalid (rejected "fallback.hosts" reason)) (normalize_dns_host raw)
  refuse (contains host hosts) (invalid (duplicate_fallback_host host))
  collect_hosts (host ∷ hosts) raws

module _ (uris : UriLib) where
  unfoldable pub validate_fallback :
      Text → FileFallbackConfig → Result ConfigError (Option FallbackConfig)
  validate_fallback directory f = do
    refuse (is_empty f.hosts || ltb 1024 (length f.hosts))
        (invalid (message "fallback.hosts must contain 1..1024 names"))
    hosts ← collect_hosts [] f.hosts
    upstream ←
        map_err (λ reason. invalid (bad_upstream "fallback" reason))
          (validate uris directory f.upstream)
    ok (
        if f.enabled
        then some (record { hosts = hosts; security = f.security; upstream = upstream })
        else none)
