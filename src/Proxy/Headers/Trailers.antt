-- ===== src/Proxy/Headers/Trailers.antt =====
-- src/http_proxy/headers.rs: the trailers that a body may end with.
use edge_gateway.Prelude.{
  ℕ, ◌+◌, ◌-◌, ◌^◌, ◌≤◌, min, ◌≡◌, true, false, not, Option, some, List, [], ◌∷◌, ok, contains, any,
  arith, length, is_empty, ==_iff, nat_eq, list_eq,
}
use edge_gateway.Prelude.Text.{Text}
use edge_gateway.Http.{HeaderLib}
use edge_gateway.Proxy.Headers.{trailers, trailer_bytes, sanitize_stream_frame, sanitize_trailers}
use edge_gateway.Proxy.Headers.Hop.{trailer_values, sanitize_trailers_lem}

-- A name that no member refuses.
none_refused :
    (names keys : List Text) (k : Text)
    → any (λ name. not (contains name names)) keys ≡ false
    → contains k keys ≡ true
    → contains k names ≡ true
none_refused names [] k h c = cc
none_refused names (n ∷ keys) k h c = ground (arith, ==_iff n k, none_refused names keys k)

added :
    (t a b rest : ℕ)
    → min (min (min (t + a) (2 ^ 64 - 1) + b) (2 ^ 64 - 1) + 32) (2 ^ 64 - 1) + rest ≤ 32768
    → t + (a + b + 32 + rest) ≤ 32768
added t a b rest h = omega arith

limited : (n : ℕ) → 0 + n ≤ 32768 → n ≤ 32768
limited n h = omega arith

module _ (http : HeaderLib) where
  -- The bytes of the trailers without a limit.
  abbrev pub exact_bytes : List (Text × http.Value) → ℕ
  exact_bytes [] = 0
  exact_bytes ((name, value) ∷ fields) =
      length name + length (http.as_bytes value) + 32 + exact_bytes fields

  trailer_bytes_lem :
      (total : ℕ) (fields : List (Text × http.Value))
      → trailer_bytes http total fields ≤ 32768
      → (total + exact_bytes fields ≤ 32768)
  unfolding trailer_bytes
  trailer_bytes_lem total [] h = omega arith
  trailer_bytes_lem total ((name, value) ∷ fields) h =
      let add = λ (a b : ℕ). min (a + b) (2 ^ 64 - 1) in
      let next = add (add (add total (length name)) (length (http.as_bytes value))) 32 in
      added total (length name) (length (http.as_bytes value)) (exact_bytes fields)
        (trailer_bytes_lem next fields h)

  found :
      (k : Text) (out clean : http.HeaderMap)
      → out ≡ clean
      → is_empty (http.get_all k out) ≡ false
      → contains k (http.keys clean) ≡ true
  found k out clean same present = ground (arith, http.contains-keys k clean)

  -- Where a frame of trailers is passed on: it had at most 100 fields, and 32 KiB with 32 bytes more for
  -- each; every field of it is what `sanitize_trailers` leaves; and where the trailers have to be
  -- declared, each of its fields was.
  pub sanitize_stream_frame_lem :
      (fields out : http.HeaderMap) (declared : Option (List Text))
      → sanitize_stream_frame http (trailers fields) declared ≡ ok (trailers out)
      → (length (http.fields fields) ≤ 100)
        × (exact_bytes (http.fields fields) ≤ 32768)
        × ((k : Text) → http.get_all k out ≡ trailer_values http k fields)
        × ((k : Text) (names : List Text)
            → declared ≡ some names
            → is_empty (http.get_all k out) ≡ false
            → contains k names ≡ true)
  unfolding sanitize_stream_frame
  sanitize_stream_frame_lem fields out declared h =
      let same : out ≡ sanitize_trailers http fields = ground arith in
      (
        ground arith,
        limited (exact_bytes (http.fields fields))
            (trailer_bytes_lem 0 (http.fields fields) (ground arith)),
        λ k. rw same (sanitize_trailers_lem http k fields),
        λ k names is_declared present.
            none_refused names (http.keys (sanitize_trailers http fields)) k (ground arith)
              (found k out (sanitize_trailers http fields) same present),
      )
