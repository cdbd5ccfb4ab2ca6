-- ===== src/Proxy/Path.antt =====
-- src/http_proxy/routes.rs: `validate_http_path`, on the raw bytes of a path.
use edge_gateway.Prelude.{
  ℕ, ◌+◌, ◌*◌, String, Bool, not, ◌||◌, List, [], ◌∷◌, Result, ok, err, ◌>>=◌, ◌>>◌, refuse, ok_or,
  ltb, leb, if◌then◌else◌, any, ◌==◌, nat_eq, list_eq, length,
}
use edge_gateway.Prelude.Text.{
  Text, text, is_alphanumeric, starts_with, split, to_digit, contains_pair,
}

-- A decoded byte that an escape may not stand for.
unfoldable pub aliases : ℕ → Bool
aliases value =
    value == b'/'
    || value == b'\\'
    || value == b'%'
    || is_alphanumeric value
    || value == b'-'
    || value == b'.'
    || value == b'_'
    || value == b'~'
    || ltb value b' '
    || value == 127

-- The two characters behind a percent sign.
unfoldable pub check_escape : ℕ → ℕ → Result String (Unit {0})
check_escape b c = do
  high ← ok_or (to_digit 16 b) "invalid percent encoding"
  low ← ok_or (to_digit 16 c) "invalid percent encoding"
  refuse (aliases (high * 16 + low))
      "encoded path separators/unreserved/control/double encoding are not supported"

-- The loop over the bytes of a segment.
unfoldable pub check_escapes : Text → Result String (Unit {0})
check_escapes [] = ok tt
check_escapes (a ∷ []) = refuse (a == b'%') "invalid percent encoding"
check_escapes (a ∷ b ∷ []) =
    let rest = check_escapes (b ∷ []) in if a == b'%' then err "invalid percent encoding" else rest
check_escapes (a ∷ b ∷ c ∷ s) =
    let plain = check_escapes (b ∷ c ∷ s) in
    let escaped = check_escape b c >>= λ _. check_escapes s in if a == b'%' then escaped else plain

unfoldable pub check_segments : List Text → Result String (Unit {0})
check_segments [] = ok tt
check_segments (segment ∷ segments) = do
  refuse (segment == text "." || segment == text "..") "dot segments are not supported"
  check_escapes segment
  check_segments segments

unfoldable pub forbidden_byte : ℕ → Bool
forbidden_byte b = leb b b' ' || b == 127

unfoldable pub validate_http_path : Text → Result String (Unit {0})
validate_http_path path = do
  refuse
      (not (starts_with path (text "/"))
        || ltb 8192 (length path)
        || any (λ b. b == b'?' || b == b'#' || b == b'\\') path
        || any forbidden_byte path)
      "invalid HTTP path"
  refuse (contains_pair b'/' b'/' path) "repeated path separators are not supported"
  check_segments (split b'/' path)
