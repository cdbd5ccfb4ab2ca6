-- ===== src/Http.antt =====
-- The header types of the crate `http`, which the code uses and does not contain: an interface with
-- the documented behaviour of the calls. A header name is its lower-case text.
pub mod Removal
pub mod Listed
pub mod Sample
use edge_gateway.Prelude.{
  ℕ, ◌≡◌, Bool, ◌&&◌, ◌||◌, not, List, [], ◌∷◌, Option, none, some, ltb, leb, if◌then◌else◌,
  is_empty, all, contains, ◌==◌, nat_eq, list_eq, true, Result, ◌<◌,
}
use edge_gateway.Prelude.Text.{Text}

-- The texts that `HeaderValue::to_str` and `from_static` take: visible ASCII and tabs.
unfoldable pub is_visible : Text → Bool
is_visible s = all (λ b. (leb 32 b && ltb b 127) || b == 9) s

pub record HeaderLib : Type 1 where
  pub Value : Type 0
  pub HeaderMap : Type 0
  pub to_str : Value → Option Text
  pub from_str : Text → Option Value
  pub from_static : Text → Value
  -- `HeaderName::from_bytes`
  pub parse_name : Text → Option Text
  pub get_all : Text → HeaderMap → List Value
  pub keys : HeaderMap → List Text
  -- `iter`, and the bytes of a value.
  pub fields : HeaderMap → List (Text × Value)
  pub as_bytes : Value → Text
  pub remove : Text → HeaderMap → HeaderMap
  pub insert : Text → Value → HeaderMap → HeaderMap
  pub to_str-from_static : (t : Text) → is_visible t ≡ true → to_str (from_static t) ≡ some t
  pub from_str_lem : (t : Text) → is_visible t ≡ true → from_str t ≡ some (from_static t)
  pub get_all-remove :
      (n k : Text) (h : HeaderMap) → get_all k (remove n h) ≡ (if n == k then [] else get_all k h)
  pub get_all-insert :
      (n k : Text) (v : Value) (h : HeaderMap)
      → get_all k (insert n v h) ≡ (if n == k then v ∷ [] else get_all k h)
  pub contains-keys :
      (k : Text) (h : HeaderMap) → contains k (keys h) ≡ not (is_empty (get_all k h))

-- `http::Uri`: a parser with its message, and the parts that it gives.
pub record UriLib : Type 1 where
  pub Uri : Type 0
  pub parse : Text → Result Text Uri
  pub scheme_str : Uri → Option Text
  pub authority : Uri → Option Text
  pub host : Uri → Option Text
  pub port_u16 : Uri → Option ℕ
  pub path : Uri → Text
  pub query : Uri → Option Text
  pub path_and_query : Uri → Option Text
  -- A port is a `u16`.
  pub port_u16-lt : (u : Uri) (p : ℕ) → port_u16 u ≡ some p → p < 65536
