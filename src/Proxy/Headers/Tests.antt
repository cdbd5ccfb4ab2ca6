-- ===== src/Proxy/Headers/Tests.antt =====
-- Runs of the header code, and its theorems at inputs that meet their hypotheses.
use edge_gateway.Prelude.{
  ◌≡◌, refl, true, false, [], ◌∷◌, ok, some, ◌≤◌, length, nat_eq, list_eq, contains, is_empty, List,
}
use edge_gateway.Prelude.Text.{Text, text, text_run}
use edge_gateway.Prelude.Text.Trim.{trim_run}
use edge_gateway.Http.{is_visible}
use edge_gateway.Http.Removal.{remove_names}
use edge_gateway.Http.Listed
use edge_gateway.Http.Listed.{listed, Fields, visible}
use edge_gateway.Proxy.Headers.{
  is_identity, parse_names, named_by, remove_named, sanitize_hop_headers, sanitize_request,
  sanitize_trailers, declare_names, declare_values, declared_trailer_names, trailer_bytes,
  sanitize_stream_frame,
}
use edge_gateway.Proxy.Headers.Hop.{trailer_values}
use edge_gateway.Proxy.Headers.Trailers.{sanitize_stream_frame_lem, exact_bytes}

run : Unit {0}
unfolding text_run trim_run is_visible visible remove_names Listed.get_all Listed.remove
    Listed.insert Listed.keys is_identity parse_names named_by remove_named sanitize_hop_headers
    sanitize_request sanitize_trailers declare_names declare_values declared_trailer_names
    trailer_bytes sanitize_stream_frame
run = tt

abbrev headers : Fields
headers =
    (text "connection", text "keep-alive, x-hop")
    ∷ (text "x-hop", text "1")
    ∷ (text "accept", text "a")
    ∷ []

request_test :
    sanitize_request listed headers false
    ≡ (text "te", text "trailers") ∷ (text "accept", text "a") ∷ []
unfolding run
request_test = refl

declared_test :
    declared_trailer_names listed ((text "trailer", text "x-sum, x-sum") ∷ [])
    ≡ ok (text "x-sum" ∷ [])
unfolding run
declared_test = refl

abbrev sent : Fields
sent = (text "x-sum", text "7") ∷ (text "cookie", text "c") ∷ []

abbrev passed : Fields
passed = (text "x-sum", text "7") ∷ []

sanitize_stream_frame_lem_example :
    (length (listed.fields sent) ≤ 100)
    × (exact_bytes listed (listed.fields sent) ≤ 32768)
    × ((k : Text) → listed.get_all k passed ≡ trailer_values listed k sent)
    × ((k : Text) (names : List Text)
        → some (text "x-sum" ∷ []) ≡ some names
        → is_empty (listed.get_all k passed) ≡ false
        → contains k names ≡ true)
unfolding run
sanitize_stream_frame_lem_example =
    sanitize_stream_frame_lem listed sent passed (some (text "x-sum" ∷ [])) refl
