-- ===== src/Security/Client/Headers.antt =====
-- src/security/client_address.rs: every header after `sanitize_client_address_headers`.
use edge_gateway.Prelude.{
  ◌≡◌, ◌∙◌, refl, Bool, true, not, ◌&&◌, ◌||◌, some, List, [], ◌∷◌, if◌then◌else◌, filter, contains,
  ◌==◌, nat_eq, list_eq, option_eq, arith,
}
use edge_gateway.Prelude.Text.{Text, text}
use edge_gateway.Net.{IpAddr}
use edge_gateway.Http.{HeaderLib, is_visible}
use edge_gateway.Http.Removal.{remove_names, get_all-remove_names, get_all-remove_kind}
use edge_gateway.Security.Blocking.{ResolvedClientAddress}
use edge_gateway.Security.Client.{
  only_text, is_internal, is_cloudflare, client_headers, insert_address,
  sanitize_client_address_headers,
}

module _ (http : HeaderLib) where
  -- The headers that a client may not set.
  abbrev pub forged : Bool → Text → Bool
  forged trusted k = is_internal k || contains k client_headers || (not trusted && is_cloudflare k)

  cleaned : Bool → http.HeaderMap → http.HeaderMap
  cleaned trusted h =
      let plain =
        remove_names http client_headers (remove_names http (filter is_internal (http.keys h)) h) in
      if trusted then plain else remove_names http (filter is_cloudflare (http.keys plain)) plain

  get_all-without :
      (names : List Text) (trusted : Bool) (k : Text) (h : http.HeaderMap)
      → http.get_all k (
          let plain =
            remove_names http names (remove_names http (filter is_internal (http.keys h)) h) in
          if trusted
          then plain
          else remove_names http (filter is_cloudflare (http.keys plain)) plain)
        ≡ (if is_internal k || contains k names || (not trusted && is_cloudflare k)
            then []
            else http.get_all k h)
  get_all-without names trusted k h =
      let outer = remove_names http (filter is_internal (http.keys h)) h in
      let plain = remove_names http names outer in
      ground (
        arith,
        get_all-remove_kind http is_internal k h,
        get_all-remove_names http k names outer,
        get_all-remove_kind http is_cloudflare k plain,
      )

  get_all-cleaned :
      (trusted : Bool) (k : Text) (h : http.HeaderMap)
      → http.get_all k (cleaned trusted h) ≡ (if forged trusted k then [] else http.get_all k h)
  unfolding cleaned
  get_all-cleaned trusted k h = get_all-without client_headers trusted k h

  -- The value of the header `k` of a cleaned request from the client with this shown address.
  abbrev pub clean_values : Bool → Text → Bool → Text → http.HeaderMap → List http.Value
  clean_values trusted shown over_http k h =
      if text "x-forwarded-proto" == k
      then http.from_static (if over_http then text "http" else text "https") ∷ []
      else if (text "x-real-ip" == k || text "x-forwarded-for" == k)
          || (trusted && text "cf-connecting-ip" == k)
      then http.from_static shown ∷ []
      else if forged trusted k
      then []
      else http.get_all k h

  insert_three :
      (a b c : Text) (trusted : Bool) (value : http.Value) (k : Text) (h : http.HeaderMap)
      → http.get_all k (
          if trusted
          then http.insert c value (http.insert b value (http.insert a value h))
          else http.insert b value (http.insert a value h))
        ≡ (if (b == k || a == k) || (trusted && c == k) then value ∷ [] else http.get_all k h)
  insert_three a b c trusted value k h =
      let first = http.insert a value h in
      let second = http.insert b value first in
      ground (
        arith,
        http.get_all-insert a k value h,
        http.get_all-insert b k value first,
        http.get_all-insert c k value second,
      )

  insert_address_lem :
      (trusted : Bool) (value : http.Value) (k : Text) (h : http.HeaderMap)
      → http.get_all k (insert_address http trusted value h) ≡ (
          if (text "x-real-ip" == k || text "x-forwarded-for" == k)
            || (trusted && text "cf-connecting-ip" == k)
          then value ∷ []
          else http.get_all k h)
  unfolding insert_address
  insert_address_lem trusted value k h =
      insert_three (text "x-forwarded-for") (text "x-real-ip") (text "cf-connecting-ip") trusted
        value k h

  -- Where an address is shown in visible ASCII: after the call, the forwarded protocol is `http` for a
  -- trusted proxy whose only forwarded protocol was `http`, and `https` otherwise; the real address and
  -- the forwarded address are the client's, and so is the connecting address of a trusted proxy; every
  -- other internal, address or (of an untrusted peer) Cloudflare header is gone; and all else stays.
  pub sanitize_lem :
      (show : IpAddr → Text) (h : http.HeaderMap) (address : ResolvedClientAddress) (k : Text)
      → is_visible (show address.client_ip) ≡ true
      → http.get_all k (sanitize_client_address_headers http show h address)
        ≡ clean_values address.trusted_proxy
            (show address.client_ip)
            (address.trusted_proxy
              && (only_text http (http.get_all (text "x-forwarded-proto") h) == some (text "http")))
            k
            h
  unfolding cleaned sanitize_client_address_headers
  sanitize_lem show h address k visible =
      let trusted = address.trusted_proxy in
      let value = http.from_static (show address.client_ip) in
      let clean = cleaned trusted h in
      let is_http =
        trusted
        && (only_text http (http.get_all (text "x-forwarded-proto") h) == some (text "http")) in
      let proto = http.from_static (if is_http then text "http" else text "https") in
      let shown = http.from_str_lem (show address.client_ip) visible in
      rw (sanitize_client_address_headers, shown)
        (http.get_all-insert (text "x-forwarded-proto") k proto
            (insert_address http trusted value clean)
          ∙ rw (insert_address_lem trusted value k clean, get_all-cleaned trusted k h) refl)
