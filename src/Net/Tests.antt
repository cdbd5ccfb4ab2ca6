-- ===== src/Net/Tests.antt =====
-- Runs of the address reader.
use edge_gateway.Prelude.{◌≡◌, refl, none, some}
use edge_gateway.Prelude.Text.{text}
use edge_gateway.Net.{v4, v6}
use edge_gateway.Net.Parse.{parse_ip}

parse_tests :
    (parse_ip (text "127.0.0.1") ≡ some (v4 0x7f000001))
    × (parse_ip (text "127.0.0.01") ≡ none)
    × (parse_ip (text "1.2.3.256") ≡ none)
    × (parse_ip (text "1.2.3.4.") ≡ none)
    × (parse_ip (text "::1") ≡ some (v6 1))
    × (parse_ip (text "::") ≡ some (v6 0))
    × (parse_ip (text "::ffff:10.0.0.1") ≡ some (v6 0xffff0a000001))
    × (parse_ip (text "2001:db8::A:1") ≡ some (v6 0x20010db80000000000000000000a0001))
    × (parse_ip (text "1:2:3:4:5:6:7:8") ≡ some (v6 0x00010002000300040005000600070008))
    × (parse_ip (text "1:2:3:4:5:6:7:8:9") ≡ none)
    × (parse_ip (text "example.com") ≡ none)
unfolding parse_ip
parse_tests = (refl, refl, refl, refl, refl, refl, refl, refl, refl, refl, refl)
