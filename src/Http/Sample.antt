-- ===== src/Http/Sample.antt =====
-- A small URI parser as an instance of the interface: `scheme://host:port` and a path, or a path with a query.
use edge_gateway.Prelude.{
  ℕ, ◌≡◌, ◌<◌, Option, none, some, Result, ok, ◌>>=◌, ok_or, if◌then◌else◌, ltb, arith, ◌++◌, ◌∷◌,
}
use edge_gateway.Prelude.Text.{Text, text, split_once, parse_uint, strip_prefix}
use edge_gateway.Http.{UriLib}

pub record Parts : Type 0 where
  pub scheme : Option Text
  pub authority : Option Text
  pub host : Option Text
  pub port : Option ℕ
  pub path : Text
  pub query : Option Text

abbrev target_parts : Option (Text × Text) → Text → Parts
target_parts split whole = record {
  scheme = none;
  authority = none;
  host = none;
  port = none;
  path = elim split [ none ↦ whole | some p ↦ p.0 ];
  query = elim split [ none ↦ none | some p ↦ some p.1 ];
}

-- `scheme://host:port`, with a path behind it or none.
unfoldable pub parse_parts : Text → Result Text Parts
parse_parts s = elim (split_once b':' s) [
  | none ↦ ok (target_parts (split_once b'?' s) s)
  | some (scheme, after) ↦ (do
    rest ← ok_or (strip_prefix after (text "//")) (text "no authority")
    let cut = split_once b'/' rest
    let authority : Text = elim cut [ none ↦ rest | some p ↦ p.0 ]
    pair ← ok_or (split_once b':' authority) (text "no port")
    ok (record {
      scheme = some scheme;
      authority = some authority;
      host = some pair.0;
      port = parse_uint 65536 pair.1;
      path = elim cut [ none ↦ text "/" | some p ↦ b'/' ∷ p.1 ];
      query = none;
    }))
]

unfoldable pub port_of : Parts → Option ℕ
port_of u = elim u.port [ none ↦ none | some p ↦ if ltb p 65536 then some p else none ]

pub port_of-lt : (u : Parts) (p : ℕ) → port_of u ≡ some p → p < 65536
unfolding port_of
port_of-lt u p h = ground arith

-- An instance of the interface, on which the witnesses run.
abbrev pub sample : UriLib
sample = record {
  Uri = Parts;
  parse = parse_parts;
  scheme_str = λ u. u.scheme;
  authority = λ u. u.authority;
  host = λ u. u.host;
  port_u16 = port_of;
  path = λ u. u.path;
  query = λ u. u.query;
  path_and_query = λ u. some (elim u.query [ none ↦ u.path | some q ↦ u.path ++ (b'?' ∷ q) ]);
  port_u16-lt = port_of-lt;
}
