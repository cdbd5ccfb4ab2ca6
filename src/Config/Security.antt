-- ===== src/Config/Security.antt =====
-- src/config/mod.rs: the section `security`. The files that the two loading functions read are
-- outside: their results are parameters.
use edge_gateway.Prelude.{
  Bool, ◌||◌, Option, none, some, List, [], ◌∷◌, Result, ok, ◌>>=◌, ◌>>◌, refuse, map_err, ltb,
  if◌then◌else◌, length, is_some, unwrap_or,
}
use edge_gateway.Prelude.Text.{Text, text}
use edge_gateway.Security.Network.{IpNetwork, parse}
use edge_gateway.Security.Client.{ClientAddressPolicy}
use edge_gateway.Security.Blocking.{Runtime}
use edge_gateway.Security.Settings.{
  FileIpBlockingConfig, IpBlockingConfig, default_config, validate_blocking,
}
use edge_gateway.Config.{
  ConfigError, invalid, message, bad_cidr, rejected, rejected_text, validate_path,
  resolve_config_path,
}

pub record FileCloudflareConfig : Type 0 where
  pub cache_file : Text

-- `FileCloudflareConfig::default`
abbrev pub default_cloudflare : FileCloudflareConfig
default_cloudflare = record { cache_file = text "state/cloudflare-cidrs.txt" }

pub record FileSecurityConfig : Type 0 where
  pub health_peer_cidrs : List Text
  pub cloudflare : Option FileCloudflareConfig
  pub ip_blocking : FileIpBlockingConfig

-- `FileSecurityConfig::default`
abbrev pub default_security : FileSecurityConfig
default_security = record {
  health_peer_cidrs = text "127.0.0.0/8" ∷ text "::1/128" ∷ [];
  cloudflare = none;
  ip_blocking = default_config;
}

unfoldable pub parse_health : List Text → Result ConfigError (List IpNetwork)
parse_health [] = ok []
parse_health (value ∷ values) = do
  network ← map_err (λ reason. invalid (bad_cidr value reason)) (parse value)
  rest ← parse_health values
  ok (network ∷ rest)

-- The file of the published networks, where a route or the section asks for it.
unfoldable pub cache_file_of :
    Text → Bool → Option FileCloudflareConfig → Result ConfigError (Option Text)
cache_file_of directory needs_cloudflare cloudflare =
    if needs_cloudflare || is_some cloudflare
    then (do
      let config = unwrap_or default_cloudflare cloudflare
      validate_path "security.cloudflare.cache_file" config.cache_file
      ok (some (resolve_config_path directory config.cache_file)))
    else ok none

module _ (file_name : Text → Option Text) (load_blocking : IpBlockingConfig → Result Text Runtime)
    (load_networks : Option Text → Result Text (List IpNetwork)) where
  unfoldable pub validate_security :
      Text → Bool → FileSecurityConfig → Result ConfigError (ClientAddressPolicy × Runtime)
  validate_security directory needs_cloudflare f = do
    refuse (ltb 128 (length f.health_peer_cidrs))
        (invalid (message "security.health_peer_cidrs exceeds 128 entries"))
    health ← parse_health f.health_peer_cidrs
    cache_file ← cache_file_of directory needs_cloudflare f.cloudflare
    block_config ←
        map_err (λ reason. invalid (rejected "security.ip_blocking" reason))
          (validate_blocking file_name directory f.ip_blocking)
    ip_blocking ←
        map_err (λ reason. invalid (rejected_text "security.ip_blocking" reason))
          (load_blocking block_config)
    networks ←
        map_err (λ reason. invalid (rejected_text "security.cloudflare" reason))
          (load_networks cache_file)
    ok (record { cloudflare = networks; health_peer_networks = health }, ip_blocking)
