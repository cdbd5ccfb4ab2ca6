-- ===== src/Http/Removal.antt =====
-- The loops that remove headers by name, and what they leave.
use edge_gateway.Prelude.{
  ◌≡◌, refl, Bool, ◌&&◌, List, [], ◌∷◌, if◌then◌else◌, filter, contains, ==_iff, nat_eq, list_eq,
  arith,
}
use edge_gateway.Prelude.Text.{Text}
use edge_gateway.Http.{HeaderLib}

contains-filter :
    (p : Text → Bool) (k : Text) (ns : List Text)
    → contains k (filter p ns) ≡ (p k && contains k ns)
contains-filter p k [] = ground arith
contains-filter p k (n ∷ ns) = ground (arith, contains-filter p k ns, ==_iff n k)

module _ (http : HeaderLib) where
  -- The loops that remove the headers of a list of names.
  unfoldable pub remove_names : List Text → http.HeaderMap → http.HeaderMap
  remove_names [] h = h
  remove_names (n ∷ ns) h = remove_names ns (http.remove n h)

  pub get_all-remove_names :
      (k : Text) (ns : List Text) (h : http.HeaderMap)
      → http.get_all k (remove_names ns h) ≡ (if contains k ns then [] else http.get_all k h)
  unfolding remove_names
  get_all-remove_names k [] h = refl
  get_all-remove_names k (n ∷ ns) h =
      ground
        (arith, get_all-remove_names k ns (http.remove n h), http.get_all-remove n k h, ==_iff n k)

  -- Removing the present headers of a kind leaves none of the kind.
  pub get_all-remove_kind :
      (p : Text → Bool) (k : Text) (h : http.HeaderMap)
      → http.get_all k (remove_names (filter p (http.keys h)) h)
        ≡ (if p k then [] else http.get_all k h)
  get_all-remove_kind p k h = ground (
    arith,
    get_all-remove_names k (filter p (http.keys h)) h,
    contains-filter p k (http.keys h),
    http.contains-keys k h,
  )
