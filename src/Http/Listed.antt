-- ===== src/Http/Listed.antt =====
-- A header map as the list of its fields, and the laws of the interface for it.
use edge_gateway.Prelude.{
  ◌≡◌, refl, true, not, List, [], ◌∷◌, Option, none, some, arith, if◌then◌else◌, is_empty, contains,
  ◌==◌, ==_iff, nat_eq, list_eq,
}
use edge_gateway.Prelude.Text.{Text}
use edge_gateway.Http.{HeaderLib, is_visible}

abbrev pub Fields : Type 0
Fields = List (Text × Text)

unfoldable pub get_all : Text → Fields → List Text
get_all k [] = []
get_all k ((n, v) ∷ h) = if n == k then v ∷ get_all k h else get_all k h

unfoldable pub remove : Text → Fields → Fields
remove k [] = []
remove k ((n, v) ∷ h) = if n == k then remove k h else (n, v) ∷ remove k h

unfoldable pub insert : Text → Text → Fields → Fields
unfolding remove
insert k v h = (k, v) ∷ remove k h

unfoldable pub keys : Fields → List Text
keys [] = []
keys ((n, v) ∷ h) = n ∷ keys h

unfoldable pub visible : Text → Option Text
visible t = if is_visible t then some t else none

pub get_all-remove :
    (n k : Text) (h : Fields) → get_all k (remove n h) ≡ (if n == k then [] else get_all k h)
unfolding get_all remove
get_all-remove n k [] = ground arith
get_all-remove n k ((m, v) ∷ h) =
    ground (arith, ==_iff m n, ==_iff n k, ==_iff m k, get_all-remove n k h)

pub get_all-insert :
    (n k v : Text) (h : Fields)
    → get_all k (insert n v h) ≡ (if n == k then v ∷ [] else get_all k h)
unfolding get_all insert
get_all-insert n k v h = ground (arith, get_all-remove n k h)

pub contains-keys : (k : Text) (h : Fields) → contains k (keys h) ≡ not (is_empty (get_all k h))
unfolding get_all keys
contains-keys k [] = refl
contains-keys k ((n, v) ∷ h) = ground (arith, contains-keys k h)

pub visible_lem : (t : Text) → is_visible t ≡ true → visible t ≡ some t
unfolding visible
visible_lem t h = ground arith

-- An instance of the interface, on which the witnesses run.
abbrev pub listed : HeaderLib
listed = record {
  Value = Text;
  HeaderMap = Fields;
  to_str = visible;
  from_str = visible;
  from_static = λ t. t;
  parse_name = λ t. if is_empty t then none else some t;
  get_all = get_all;
  keys = keys;
  fields = λ h. h;
  as_bytes = λ v. v;
  remove = remove;
  insert = insert;
  to_str-from_static = visible_lem;
  from_str_lem = visible_lem;
  get_all-remove = get_all-remove;
  get_all-insert = get_all-insert;
  contains-keys = contains-keys;
}
