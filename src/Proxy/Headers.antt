-- ===== src/Proxy/Headers.antt =====
-- src/http_proxy/headers.rs: the headers and trailers that the proxy passes on.
pub mod Hop
pub mod Trailers
mod Tests
use edge_gateway.Prelude.{
  ℕ, ◌+◌, ◌^◌, min, String, Bool, true, false, not, ◌&&◌, ◌||◌, Option, none, some, List, [], ◌∷◌,
  ◌++◌, map, Result, ok, err, ◌>>=◌, ◌>>◌, refuse, ok_or, or_else, if◌then◌else◌, ltb, any, filter,
  contains, length, head?, ◌==◌, nat_eq, list_eq, ◌-◌,
}
use edge_gateway.Prelude.Text.{Text, text, split, starts_with}
use edge_gateway.Prelude.Text.Trim.{trim}
use edge_gateway.Http.{HeaderLib}
use edge_gateway.Http.Removal.{remove_names}
use edge_gateway.Routing.{RequestHead, resolve_request_host}

-- Headers that belong to one connection, besides the ones that `connection` and `upgrade` name.
abbrev pub hop_headers : List Text
hop_headers = text "proxy-connection" ∷ text "keep-alive" ∷ text "transfer-encoding" ∷ []

-- Fields that decide on routing, framing or identity, which a trailer may not set.
abbrev pub trailer_names : List Text
trailer_names =
    text "host"
    ∷ text "content-length"
    ∷ text "content-type"
    ∷ text "content-encoding"
    ∷ text "trailer"
    ∷ text "te"
    ∷ text "authorization"
    ∷ text "proxy-authorization"
    ∷ text "cookie"
    ∷ text "set-cookie"
    ∷ text "x-real-ip"
    ∷ text "forwarded"
    ∷ text "true-client-ip"
    ∷ text "x-original-url"
    ∷ text "x-rewrite-url"
    ∷ []

unfoldable pub is_identity : Text → Bool
is_identity name =
    starts_with name (text "x-forwarded-")
    || starts_with name (text "x-edge-gateway-")
    || starts_with name (text "cf-")

module _ (http : HeaderLib) where
  unfoldable pub request_authority : RequestHead http → Result String Text
  request_authority request = do
    _ ← resolve_request_host http request
    ok_or
        (or_else request.authority (elim (head? (http.get_all (text "host") request.headers)) [
          | none ↦ none
          | some value ↦ http.to_str value
        ]))
        "request authority required"

  -- `filter_map` of the parsed names.
  unfoldable pub parse_names : List Text → List Text
  parse_names [] = []
  parse_names (part ∷ parts) = elim (http.parse_name (trim part)) [
    | none ↦ parse_names parts
    | some name ↦ name ∷ parse_names parts
  ]

  -- The names that the `connection` headers list.
  unfoldable pub named_by : List http.Value → List Text
  named_by [] = []
  named_by (value ∷ values) = elim (http.to_str value) [
    | none ↦ named_by values
    | some shown ↦ parse_names (split b',' shown) ++ named_by values
  ]

  -- The loop that removes them, but `upgrade` where the connection is upgraded.
  unfoldable pub remove_named : Bool → List Text → http.HeaderMap → http.HeaderMap
  remove_named upgrade [] h = h
  remove_named upgrade (name ∷ names) h =
      remove_named upgrade names
        (if not upgrade || not (name == text "upgrade") then http.remove name h else h)

  unfoldable pub sanitize_hop_headers : http.HeaderMap → Bool → http.HeaderMap
  sanitize_hop_headers headers upgrade =
      let named = named_by (http.get_all (text "connection") headers) in
      let unnamed = http.remove (text "connection") (remove_named upgrade named headers) in
      let kept =
        if upgrade
        then http.insert (text "connection") (http.from_static (text "upgrade")) unnamed
        else http.remove (text "upgrade") unnamed in
      http.remove (text "transfer-encoding") (remove_names http hop_headers kept)

  unfoldable pub sanitize_request : http.HeaderMap → Bool → http.HeaderMap
  sanitize_request headers upgrade =
      let plain = http.remove (text "te") (
        http.remove (text "proxy-authenticate")
          (http.remove (text "proxy-authorization") (sanitize_hop_headers headers upgrade))) in
      if upgrade then plain else http.insert (text "te") (http.from_static (text "trailers")) plain

  unfoldable pub sanitize_response : http.HeaderMap → Bool → http.HeaderMap
  sanitize_response headers upgrade =
      http.remove (text "proxy-authenticate")
        (http.remove (text "te") (sanitize_hop_headers headers upgrade))

  unfoldable pub sanitize_trailers : http.HeaderMap → http.HeaderMap
  sanitize_trailers headers =
      let hop = sanitize_hop_headers headers false in
      remove_names http trailer_names (remove_names http (filter is_identity (http.keys hop)) hop)

  abbrev bad_declaration : String
  bad_declaration = "invalid Trailer declaration"

  -- The two loops of `declared_trailer_names`: the names of one value, and all values.
  unfoldable pub declare_names : List Text → List Text → Result String (List Text)
  declare_names names [] = ok names
  declare_names names (part ∷ parts) = do
    name ← ok_or (http.parse_name (trim part)) bad_declaration
    let more = if contains name names then names else name ∷ names
    refuse (ltb 100 (length more)) "too many declared trailers"
    declare_names more parts

  unfoldable pub declare_values : List Text → List http.Value → Result String (List Text)
  declare_values names [] = ok names
  declare_values names (value ∷ values) = do
    shown ← ok_or (http.to_str value) bad_declaration
    more ← declare_names names (split b',' shown)
    declare_values more values

  unfoldable pub declared_trailer_names : http.HeaderMap → Result String (List Text)
  declared_trailer_names headers = declare_values [] (http.get_all (text "trailer") headers)

  -- `fold` with additions that stop at the largest `usize`.
  unfoldable pub trailer_bytes : ℕ → List (Text × http.Value) → ℕ
  trailer_bytes total [] = total
  trailer_bytes total ((name, value) ∷ fields) =
      let add = λ (a b : ℕ). min (a + b) (2 ^ 64 - 1) in
      trailer_bytes (add (add (add total (length name)) (length (http.as_bytes value))) 32) fields

  -- A frame of a body.
  pub data BodyFrame : Type 0 where
    data_frame : Text → BodyFrame
    trailers : http.HeaderMap → BodyFrame

  unfoldable pub sanitize_stream_frame : BodyFrame → Option (List Text) → Result String BodyFrame
  sanitize_stream_frame (data_frame bytes) declared = ok (data_frame bytes)
  sanitize_stream_frame (trailers fields) declared = do
    refuse
        (ltb 100 (length (http.fields fields)) || ltb 32768 (trailer_bytes 0 (http.fields fields)))
        "HTTP trailer limit exceeded"
    let clean = sanitize_trailers fields
    refuse
        (elim declared [
          | none ↦ false
          | some names ↦ any (λ name. not (contains name names)) (http.keys clean)
        ])
        "H1 trailers require a prior Trailer header declaration"
    ok (trailers clean)
