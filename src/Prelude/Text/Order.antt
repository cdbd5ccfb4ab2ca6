-- ===== src/Prelude/Text/Order.antt =====
-- `Vec<String>::sort`, and lists without repetition.
use edge_gateway.Prelude.{
  ◌≡◌, ◌∙◌, refl, Bool, true, false, ◌||◌, List, [], ◌∷◌, ◌++◌, if◌then◌else◌, ltb, contains, ◌==◌,
  ==_iff, nat_eq, list_eq, arith,
}
use edge_gateway.Prelude.Text.{Text}

-- The byte order of `str`.
unfoldable pub text_le : Text → Text → Bool
text_le [] t = true
text_le (a ∷ s) [] = false
text_le (a ∷ s) (b ∷ t) = if ltb a b then true else if a == b then text_le s t else false

unfoldable pub insert_sorted : Text → List Text → List Text
insert_sorted t [] = t ∷ []
insert_sorted t (s ∷ ss) = if text_le t s then t ∷ s ∷ ss else s ∷ insert_sorted t ss

unfoldable pub sort : List Text → List Text
sort [] = []
sort (t ∷ ts) = insert_sorted t (sort ts)

-- No text stands twice.
abbrev pub IsUnique : List Text → Type 0
IsUnique [] = Unit
IsUnique (t ∷ ts) = (contains t ts ≡ false) × IsUnique ts

contains-insert_sorted :
    (k t : Text) (ss : List Text) → contains k (insert_sorted t ss) ≡ (t == k || contains k ss)
unfolding insert_sorted
contains-insert_sorted k t [] = refl
contains-insert_sorted k t (s ∷ ss) = ground (arith, contains-insert_sorted k t ss)

pub contains-sort : (k : Text) (ts : List Text) → contains k (sort ts) ≡ contains k ts
unfolding sort
contains-sort k [] = refl
contains-sort k (t ∷ ts) = ground (arith, contains-insert_sorted k t (sort ts), contains-sort k ts)

insert_sorted-IsUnique :
    (t : Text) (ss : List Text)
    → contains t ss ≡ false
    → IsUnique ss
    → IsUnique (insert_sorted t ss)
unfolding insert_sorted
insert_sorted-IsUnique t [] fresh u = (refl, tt)
insert_sorted-IsUnique t (s ∷ ss) fresh u =
    ground
      (arith, contains-insert_sorted s t ss, insert_sorted-IsUnique t ss, ==_iff t s, ==_iff s t)

pub sort-IsUnique : (ts : List Text) → IsUnique ts → IsUnique (sort ts)
unfolding sort
sort-IsUnique [] u = tt
sort-IsUnique (t ∷ ts) u =
    insert_sorted-IsUnique t (sort ts) (contains-sort t ts ∙ u.0) (sort-IsUnique ts u.1)

pub contains-append :
    (k : Text) (xs ys : List Text) → contains k (xs ++ ys) ≡ (contains k xs || contains k ys)
contains-append k [] ys = refl
contains-append k (x ∷ xs) ys = ground (arith, contains-append k xs ys)

-- Lists without repetition that share nothing stay so together.
pub append-IsUnique :
    (xs ys : List Text)
    → IsUnique xs
    → IsUnique ys
    → ((k : Text) → contains k xs ≡ true → contains k ys ≡ false)
    → IsUnique (xs ++ ys)
append-IsUnique [] ys u v apart = v
append-IsUnique (x ∷ xs) ys u v apart = (
  ground (arith, contains-append x xs ys, apart x, ==_iff x x),
  append-IsUnique xs ys u.1 v (λ k h. apart k (ground arith)),
)
