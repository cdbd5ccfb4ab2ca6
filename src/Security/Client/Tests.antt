-- ===== src/Security/Client/Tests.antt =====
-- Runs of the client address code, and its theorem at inputs that meet its hypotheses.
use edge_gateway.Prelude.{◌≡◌, refl, true, false, [], ◌∷◌, ok, err, nat_eq, list_eq, option_eq}
use edge_gateway.Prelude.Text.{Text, text, text_run}
use edge_gateway.Net.{IpAddr, v4, is_ipv4_mapped}
use edge_gateway.Net.Parse.{parse_ip}
use edge_gateway.Http.{is_visible}
use edge_gateway.Http.Removal.{remove_names}
use edge_gateway.Http.Listed
use edge_gateway.Http.Listed.{listed, Fields, visible}
use edge_gateway.Security.Network
use edge_gateway.Security.Network.{v4_network, normalize_ip}
use edge_gateway.Security.Blocking.{ResolvedClientAddress, cf_connecting_ip}
use edge_gateway.Security.Client.{
  ClientAddressPolicy, permits_health_peer, resolve_client_address, only_text, is_internal,
  is_cloudflare, insert_address, sanitize_client_address_headers,
}
use edge_gateway.Security.Client.Headers.{clean_values, sanitize_lem}

-- Opens what a run of the client address code calls.
run : Unit {0}
unfolding text_run parse_ip is_visible visible normalize_ip is_ipv4_mapped Network.contains
    permits_health_peer resolve_client_address remove_names only_text is_internal is_cloudflare
    insert_address sanitize_client_address_headers Listed.get_all Listed.remove Listed.insert
    Listed.keys
run = tt

abbrev policy : ClientAddressPolicy
policy = record {
  cloudflare = v4_network 167772160 4278190080 ∷ [];
  health_peer_networks = v4_network 2130706432 4278190080 ∷ [];
}

abbrev headers : Fields
headers =
    (text "cf-connecting-ip", text "192.0.2.7")
    ∷ (text "x-forwarded-for", text "1.2.3.4")
    ∷ (text "accept", text "a")
    ∷ []

abbrev client : ResolvedClientAddress
client = record {
  peer = record { ip = v4 167772161; port = 443 };
  client_ip = v4 3221225991;
  client_ip_source = cf_connecting_ip;
  trusted_proxy = true;
}

resolve_tests :
    (resolve_client_address listed policy client.peer headers (record { cloudflare_only = true })
      ≡ ok client)
    × (resolve_client_address listed policy
          (record { ip = v4 5; port = 1 })
          headers
          (record { cloudflare_only = true })
        ≡ err "route requires a Cloudflare origin peer")
    × (permits_health_peer policy (record { ip = v4 2130706433; port = 1 }) ≡ true)
unfolding run
resolve_tests = (refl, refl, refl)

abbrev shown : IpAddr → Text
shown ip = text "192.0.2.7"

sanitize_test :
    Listed.get_all
      (text "x-forwarded-for")
      (sanitize_client_address_headers listed shown headers client)
    ≡ text "192.0.2.7" ∷ []
unfolding run
sanitize_test = refl

shown_is_visible : is_visible (text "192.0.2.7") ≡ true
unfolding run
shown_is_visible = refl

sanitize_lem_example :
    Listed.get_all (text "accept") (sanitize_client_address_headers listed shown headers client)
    ≡ clean_values listed true (text "192.0.2.7") false (text "accept") headers
unfolding run
sanitize_lem_example = sanitize_lem listed shown headers client (text "accept") shown_is_visible
