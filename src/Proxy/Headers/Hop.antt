-- ===== src/Proxy/Headers/Hop.antt =====
-- src/http_proxy/headers.rs: every header behind the removal of the hop-by-hop ones.
use edge_gateway.Prelude.{
  ◌≡◌, ◌∙◌, refl, Bool, true, false, not, ◌&&◌, ◌||◌, List, [], ◌∷◌, if◌then◌else◌, filter,
  contains, Bool-cases, inl, inr, ◌==◌, ==_iff, nat_eq, list_eq, arith,
}
use edge_gateway.Prelude.Text.{Text, text}
use edge_gateway.Http.{HeaderLib}
use edge_gateway.Http.Removal.{remove_names, get_all-remove_names, get_all-remove_kind}
use edge_gateway.Proxy.Headers.{
  hop_headers, trailer_names, is_identity, named_by, remove_named, sanitize_hop_headers,
  sanitize_trailers,
}

same_test : (n k u : Text) → (n == k) ≡ true → (n == u) ≡ (u == k)
same_test n k u h = ground (arith, ==_iff n k, ==_iff n u, ==_iff u k)

removed :
    {V : Type 0} (upgrade nu ku same found : Bool) (vs : List V)
    → (not upgrade || not nu) ≡ true
    → (same ≡ true → nu ≡ ku)
    → (if found && not (upgrade && ku) then [] else if same then [] else vs)
      ≡ (if (same || found) && not (upgrade && ku) then [] else vs)
removed upgrade nu ku same found vs h e = ground arith

kept :
    {V : Type 0} (upgrade nu ku same found : Bool) (vs : List V)
    → (not upgrade || not nu) ≡ false
    → (same ≡ true → nu ≡ ku)
    → (if found && not (upgrade && ku) then [] else vs)
      ≡ (if (same || found) && not (upgrade && ku) then [] else vs)
kept upgrade nu ku same found vs h e = ground arith

third : (a b c k : Text) → (c == k) ≡ true → contains k (a ∷ b ∷ c ∷ []) ≡ true
third a b c k h = ground arith

-- The same choice, as the function makes it and in the order of the names.
choose :
    {V : Type 0} (upgrade t fixed c u named : Bool) (v : V) (vs : List V)
    → (t ≡ true → fixed ≡ true)
    → (if t || fixed
        then []
        else if c
        then (if upgrade then v ∷ [] else [])
        else if not upgrade && u
        then []
        else if named && not (upgrade && u)
        then []
        else vs)
      ≡ (if fixed
          then []
          else if c
          then (if upgrade then v ∷ [] else [])
          else if u
          then (if upgrade then vs else [])
          else if named
          then []
          else vs)
choose upgrade t fixed c u named v vs h = ground arith

either :
    {V : Type 0} (a b : Bool) (vs : List V)
    → (if a then [] else if b then [] else vs) ≡ (if a || b then [] else vs)
either a b vs = ground arith

module _ (http : HeaderLib) where
  get_all-remove_named :
      (upgrade : Bool) (k : Text) (names : List Text) (h : http.HeaderMap)
      → http.get_all k (remove_named http upgrade names h) ≡ (
          if contains k names && not (upgrade && text "upgrade" == k) then [] else http.get_all k h)
  unfolding remove_named
  get_all-remove_named upgrade k [] h = ground arith
  get_all-remove_named upgrade k (n ∷ ns) h =
      let goes = not upgrade || not (n == text "upgrade") in
      let next = if goes then http.remove n h else h in
      elim (Bool-cases goes) [
        | inl yes' ↦
            let step : next ≡ http.remove n h = rw yes' refl in
            rw
              (step, get_all-remove_named upgrade k ns (http.remove n h), http.get_all-remove n k h)
              (removed upgrade (n == text "upgrade") (text "upgrade" == k) (n == k) (contains k ns)
                (http.get_all k h) yes' (same_test n k (text "upgrade")))
        | inr no' ↦
            let step : next ≡ h = rw no' refl in
            rw (step, get_all-remove_named upgrade k ns h)
              (kept upgrade (n == text "upgrade") (text "upgrade" == k) (n == k) (contains k ns)
                (http.get_all k h) no' (same_test n k (text "upgrade")))
      ]

  -- The end of the function, over any names and any map.
  get_all-end :
      (upgrade : Bool) (c u t k : Text) (fixed : List Text) (v : http.Value) (h : http.HeaderMap)
      → http.get_all k (
          http.remove t (
            remove_names http fixed (
              if upgrade
              then http.insert c v (http.remove c h)
              else http.remove u (http.remove c h))))
        ≡ (if t == k || contains k fixed
            then []
            else if c == k
            then (if upgrade then v ∷ [] else [])
            else if not upgrade && u == k
            then []
            else http.get_all k h)
  get_all-end upgrade c u t k fixed v h =
      let plain = http.remove c h in
      let kept = if upgrade then http.insert c v plain else http.remove u plain in
      ground (
        arith,
        http.get_all-remove t k (remove_names http fixed kept),
        get_all-remove_names http k fixed kept,
        http.get_all-insert c k v plain,
        http.get_all-remove u k plain,
        http.get_all-remove c k h,
      )

  -- Every header behind the removal: `connection` is rewritten, `upgrade` stays for an upgrade only,
  -- the headers of the connection and those that it names go, and all others stay.
  abbrev pub hop_values : Bool → Text → http.HeaderMap → List http.Value
  hop_values upgrade k h =
      if contains k hop_headers
      then []
      else if text "connection" == k
      then (if upgrade then http.from_static (text "upgrade") ∷ [] else [])
      else if text "upgrade" == k
      then (if upgrade then http.get_all k h else [])
      else if contains k (named_by http (http.get_all (text "connection") h))
      then []
      else http.get_all k h

  pub sanitize_hop_headers_lem :
      (upgrade : Bool) (k : Text) (h : http.HeaderMap)
      → http.get_all k (sanitize_hop_headers http h upgrade) ≡ hop_values upgrade k h
  unfolding sanitize_hop_headers
  sanitize_hop_headers_lem upgrade k h =
      let names = named_by http (http.get_all (text "connection") h) in
      get_all-end upgrade (text "connection") (text "upgrade") (text "transfer-encoding") k
        hop_headers (http.from_static (text "upgrade")) (remove_named http upgrade names h)
      ∙ rw (get_all-remove_named upgrade k names h) (
          choose upgrade (text "transfer-encoding" == k) (contains k hop_headers)
            (text "connection" == k) (text "upgrade" == k) (contains k names)
            (http.from_static (text "upgrade")) (http.get_all k h)
            (third (text "proxy-connection") (text "keep-alive") (text "transfer-encoding") k))

  -- What a sanitized trailer may hold.
  abbrev pub trailer_values : Text → http.HeaderMap → List http.Value
  trailer_values k h =
      if contains k trailer_names || is_identity k then [] else hop_values false k h

  pub sanitize_trailers_lem :
      (k : Text) (h : http.HeaderMap)
      → http.get_all k (sanitize_trailers http h) ≡ trailer_values k h
  unfolding sanitize_trailers
  sanitize_trailers_lem k h =
      let hop = sanitize_hop_headers http h false in
      let mine = remove_names http (filter is_identity (http.keys hop)) hop in
      get_all-remove_names http k trailer_names mine
      ∙ rw (get_all-remove_kind http is_identity k hop, sanitize_hop_headers_lem false k h)
          (either (contains k trailer_names) (is_identity k) (hop_values false k h))
