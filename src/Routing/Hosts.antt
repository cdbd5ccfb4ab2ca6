-- ===== src/Routing/Hosts.antt =====
-- src/routing/mod.rs: which host `resolve_request_host` takes a request to be for.
use edge_gateway.Prelude.{
  unwrap_or, ℕ, ◌≡◌, none, some, [], ◌∷◌, arith, ok, Option, ◌↔◌, inl, inr, ==_iff, nat_eq, list_eq,
  Option-cases, Result-cases, ◌≢◌, List-cases,
}
use edge_gateway.Prelude.Text.{Text, text}
use edge_gateway.Http.{HeaderLib}
use edge_gateway.Routing.{normalize_authority, conflicts, RequestHead, http_2, resolve_request_host}

module _ (http : HeaderLib) where
  -- There is one `Host` field, and it reads as the host `h` with the port `p`.
  abbrev pub HostFieldIs : RequestHead http → Text → Option ℕ → Type 0
  HostFieldIs r h p =
      (v : http.Value) × (t : Text) × (http.get_all (text "host") r.headers ≡ v ∷ [])
      × (http.to_str v ≡ some t)
      × (normalize_authority t ≡ ok (h, p))

  abbrev pub AuthorityIs : RequestHead http → Text → Option ℕ → Type 0
  AuthorityIs r h p = (a : Text) × (r.authority ≡ some a) × (normalize_authority a ≡ ok (h, p))

  -- The authority decides, and a `Host` field beside it has to agree, an absent port being 443;
  -- without an authority, and not over HTTP/2, the one `Host` field decides.
  pub data IsFor (r : RequestHead http) (h : Text) : Type 0 where
    authority_alone :
        (p : Option ℕ) → AuthorityIs r h p → http.get_all (text "host") r.headers ≡ [] → IsFor r h
    both :
        (p q : Option ℕ)
        → AuthorityIs r h p
        → HostFieldIs r h q
        → unwrap_or 443 q ≡ unwrap_or 443 p
        → IsFor r h
    field_alone :
        (q : Option ℕ) → HostFieldIs r h q → r.authority ≡ none → r.version ≢ http_2 → IsFor r h

  resolve_complete :
      (r : RequestHead http) (h : Text) → IsFor r h → resolve_request_host http r ≡ ok h
  unfolding resolve_request_host conflicts
  resolve_complete r h (authority_alone p (a, e, n) f) = ground arith
  resolve_complete r h (both p q (a, e, n) (v, t, f, g, k) same) =
      ground (arith, ==_iff h h, ==_iff (unwrap_or 443 q) (unwrap_or 443 p))
  resolve_complete r h (field_alone q (v, t, f, g, k) e w) = ground arith

  resolve_no_field :
      (r : RequestHead http) (h : Text)
      → http.get_all (text "host") r.headers ≡ []
      → resolve_request_host http r ≡ ok h
      → IsFor r h
  unfolding resolve_request_host conflicts
  resolve_no_field r h e k = elim (Option-cases r.authority) [
    | inl absent ↦ absurd (ground arith)
    | inr (a, given) ↦ elim (Result-cases (normalize_authority a)) [
      | inl ((h', p), n) ↦ authority_alone p (a, given, ground arith) e
      | inr (x, n) ↦ absurd (ground arith)
    ]
  ]

  resolve_one_field :
      (r : RequestHead http) (h : Text) (v : http.Value)
      → http.get_all (text "host") r.headers ≡ v ∷ []
      → resolve_request_host http r ≡ ok h
      → IsFor r h
  unfolding resolve_request_host conflicts
  resolve_one_field r h v e k = elim (Option-cases (http.to_str v)) [
    | inl unreadable ↦ absurd (ground arith)
    | inr (t, reads) ↦ elim (Result-cases (normalize_authority t)) [
      | inr (x, n) ↦ absurd (ground arith)
      | inl ((h', q), n) ↦ elim (Option-cases r.authority) [
        | inl absent ↦
            field_alone q (v, t, e, reads, ground arith) absent (λ w. absurd (ground arith))
        | inr (a, given) ↦ elim (Result-cases (normalize_authority a)) [
          | inr (x, m) ↦ absurd (ground arith)
          | inl ((h'', p), m) ↦
              both p q (a, given, ground (arith, ==_iff h' h''))
                (v, t, e, reads, ground (arith, ==_iff h' h''))
                (ground (arith, ==_iff h' h'', ==_iff (unwrap_or 443 q) (unwrap_or 443 p)))
        ]
      ]
    ]
  ]

  -- `resolve_request_host` returns a host exactly when the authority names it and there is no `Host`
  -- field, or the authority and the only `Host` field name it with ports that agree, an absent port
  -- being 443, or there is no authority, the only `Host` field names it and the request is not HTTP/2.
  pub resolve_request_host_iff :
      (r : RequestHead http) (h : Text) → (resolve_request_host http r ≡ ok h) ↔ IsFor r h
  unfolding resolve_request_host
  resolve_request_host_iff r h = (sound, resolve_complete r h)
    where
      sound : resolve_request_host http r ≡ ok h → IsFor r h
      sound k = elim (List-cases (http.get_all (text "host") r.headers)) [
        | inl e ↦ resolve_no_field r h e k
        | inr (inl (v, e)) ↦ resolve_one_field r h v e k
        | inr (inr (v, w, vs, e)) ↦ absurd (ground arith)
      ]
