-- ===== src/Security/Cloudflare/Tests.antt =====
-- Runs of the Cloudflare lists, and their theorem at a list of two networks.
use edge_gateway.Prelude.{
  ◌≡◌, ◌≤◌, ◌↔◌, refl, Bool, true, false, not, List, [], ◌∷◌, ◌++◌, ok, err, map, any, length, some,
  nat_eq, list_eq, ◌+◌,
}
use edge_gateway.Prelude.Text.{Text, text, text_run}
use edge_gateway.Prelude.Text.Trim.{trim_run}
use edge_gateway.Net.{is_ipv4_mapped}
use edge_gateway.Net.Parse.{parse_ip}
use edge_gateway.Security.Network
use edge_gateway.Security.Network.{IpNetwork, v4_network, v6_network, mask_of}
use edge_gateway.Security.Cloudflare.{
  max_file_bytes, max_entries, end_lines, lines, read_value, count_family, validate_family,
  cache_values, parse_values, parse_networks, cache_needs_refresh, refresh_age,
}
use edge_gateway.Security.Cloudflare.Cache.{IsFresh, is_v4, network_of, parse_networks_iff}

run : Unit {0}
unfolding text_run trim_run is_ipv4_mapped parse_ip mask_of Network.parse end_lines lines read_value
    count_family validate_family cache_values parse_values parse_networks cache_needs_refresh
run = tt

abbrev source : Text
source =
    text "10.0.0.0/8"
    ++ (0xd ∷ 0xa ∷ text "# families" ++ (0xa ∷ text " fc00::/7 # local" ++ (0xa ∷ [])))

abbrev networks : List IpNetwork
networks =
    v4_network 167772160 4278190080
    ∷ v6_network 0xfc000000000000000000000000000000 0xfe000000000000000000000000000000
    ∷ []

parse_tests :
    (parse_networks source ≡ ok networks)
    × (parse_networks (text "10.0.0.0/8") ≡ err "CF cache must contain both IP families")
    × (validate_family (text "10.0.0.0/8") true ≡ ok tt)
    × (validate_family (text "10.0.0.0/8") false ≡ err "CF response contains the wrong IP family")
    × (cache_needs_refresh (some 5) 4 ≡ true)
    × (cache_needs_refresh (some 5) (4 + refresh_age) ≡ false)
unfolding run
parse_tests = (refl, refl, refl, refl, refl, refl)

parse_networks_iff_example : (parse_networks source ≡ ok networks) ↔ (
    (length source ≤ max_file_bytes)
    × IsFresh [] (cache_values source)
    × ((read : List (Bool × IpNetwork)) × (map read_value (cache_values source) ≡ map ok read)
        × (networks ≡ map network_of read)
        × (length networks ≤ max_entries)
        × (any is_v4 read ≡ true)
        × (any (λ r. not (is_v4 r)) read ≡ true)))
parse_networks_iff_example = parse_networks_iff source networks
