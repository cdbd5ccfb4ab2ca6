-- ===== src/Prelude/Text/Suffix.antt =====
-- `str::strip_suffix` and `str::ends_with`, texts that share an end, and `str::strip_prefix`.
use edge_gateway.Prelude.{
  ℕ, ◌≡◌, ◌≢◌, ap, length, length-append, ◌⊎◌, inl, inr, Bool, true, Option, none, some, [], ◌∷◌,
  ◌++◌, if◌then◌else◌, is_empty, is_some, ◌==◌, ==_iff, nat_eq, list_eq, arith, refl,
}
use edge_gateway.Prelude.Text.{Text, strip_prefix}

unfoldable pub strip_suffix : Text → Text → Option Text
strip_suffix [] p = if is_empty p then some [] else none
strip_suffix (b ∷ s) p =
    if b ∷ s == p then some [] else elim (strip_suffix s p) [ none ↦ none | some r ↦ some (b ∷ r) ]

unfoldable pub ends_with : Text → Text → Bool
ends_with s p = is_some (strip_suffix s p)

pub strip_suffix-eq : (s p r : Text) → strip_suffix s p ≡ some r → s ≡ r ++ p
unfolding strip_suffix
strip_suffix-eq [] [] r h = ground arith
strip_suffix-eq [] (c ∷ p) r h = ground arith
strip_suffix-eq (b ∷ s) p [] h = ground (arith, ==_iff (b ∷ s) p)
strip_suffix-eq (b ∷ s) p (c ∷ r) h = ground (arith, ==_iff (b ∷ s) p, strip_suffix-eq s p r)

longer : (b : ℕ) (r p : Text) → b ∷ (r ++ p) ≢ p
longer b r p h = omega (arith, length-append r p, ap length h)

-- The text of a name in front of the suffix comes back.
pub strip_suffix-append : (r p : Text) → strip_suffix (r ++ p) p ≡ some r
unfolding strip_suffix
strip_suffix-append [] [] = refl
strip_suffix-append [] (c ∷ p) = ground (arith, ==_iff (c ∷ p) (c ∷ p))
strip_suffix-append (b ∷ r) p =
    ground (arith, ==_iff (b ∷ (r ++ p)) p, longer b r p, strip_suffix-append r p)

pub suffixes_overlap :
    (x y c k : Text) → x ++ c ≡ y ++ k → (ends_with c k ≡ true) ⊎ (ends_with k c ≡ true)
unfolding ends_with
suffixes_overlap [] y c k h = inl (rw (h, strip_suffix-append y k) refl)
suffixes_overlap (a ∷ x) [] c k h = inr (rw (← h, strip_suffix-append (a ∷ x) c) refl)
suffixes_overlap (a ∷ x) (b ∷ y) c k h = suffixes_overlap x y c k (ground arith)

pub strip_prefix-eq : (s p r : Text) → strip_prefix s p ≡ some r → s ≡ p ++ r
unfolding strip_prefix
strip_prefix-eq s [] r h = ground arith
strip_prefix-eq [] (c ∷ p) r h = ground arith
strip_prefix-eq (b ∷ s) (c ∷ p) r h = ground (arith, strip_prefix-eq s p r, ==_iff b c)

pub strip_prefix-++ : (p r : Text) → strip_prefix (p ++ r) p ≡ some r
unfolding strip_prefix
strip_prefix-++ [] r = refl
strip_prefix-++ (b ∷ p) r = ground (arith, strip_prefix-++ p r)
