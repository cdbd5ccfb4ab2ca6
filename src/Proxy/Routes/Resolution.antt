-- ===== src/Proxy/Routes/Resolution.antt =====
-- src/http_proxy/routes.rs: the loop of `resolve` finds the longest segment prefix.
use edge_gateway.Prelude.{
  ℕ, zero, suc, ◌<◌, ◌≡◌, refl, sym, ap, ◌∙◌, ◌≢◌, ◌↔◌, ◌⊎◌, inl, inr, false, Option, none, some,
  [], ◌∷◌, ◌++◌, arith, length, length-append, take, All, ◌==◌, nat_eq, list_eq, Option-cases,
  Bool-cases, if◌then◌else◌,
}
use mathlib.Core.List.{append_assoc}
use edge_gateway.Prelude.Text.{Text, text}
use edge_gateway.Prelude.Maps.{Map, get}
use edge_gateway.Proxy.Routes.{HttpRoute, rfind, resolve_prefix}

abbrev pub slash : ℕ
slash = b'/'

-- `q` ends where a segment of the path `c` ends, before its end; `/` is above all absolute paths.
abbrev pub Above : Text → Text → Type 0
Above q c =
    ((q ≢ []) × ((rest : Text) × (c ≡ q ++ (slash ∷ rest))))
    ⊎ ((q ≡ slash ∷ []) × ((rest : Text) × (c ≡ slash ∷ rest)))

-- The prefixes of a path that a route may be configured for: it matches them segment by segment.
abbrev pub SegmentPrefix : Text → Text → Type 0
SegmentPrefix q c = (q ≡ c) ⊎ Above q c

-- `r` is the route of the longest configured segment prefix of `c`.
abbrev pub Longest : Map Text HttpRoute → Text → HttpRoute → Type 0
Longest m c r =
    (p : Text) × SegmentPrefix p c
    × (get p m ≡ some r)
    × ((q : Text) → SegmentPrefix q c → length p < length q → get q m ≡ none)

abbrev NoSlash : Text → Type 0
NoSlash = All (λ b. (b == slash) ≡ false)

NoSlash-inside : (q b rest : Text) → NoSlash b → b ≡ q ++ (slash ∷ rest) → ⊥
NoSlash-inside [] [] rest h e = cc
NoSlash-inside [] (x ∷ b) rest h e = ground (arith, h.0)
NoSlash-inside (y ∷ q) [] rest h e = cc
NoSlash-inside (y ∷ q) (x ∷ b) rest h e = NoSlash-inside q b rest h.1 (cc)

-- Where the last slash stands behind `a`, a prefix cut at a slash is `a` or is cut inside `a`.
cut_cases :
    (a q b rest : Text)
    → NoSlash b
    → a ++ (slash ∷ b) ≡ q ++ (slash ∷ rest)
    → (q ≡ a) ⊎ ((rest' : Text) × (a ≡ q ++ (slash ∷ rest')))
cut_cases [] [] b rest h e = inl refl
cut_cases [] (y ∷ q) b rest h e = absurd (NoSlash-inside q b rest h (cc))
cut_cases (x ∷ a) [] b rest h e = inr (a, ground arith)
cut_cases (x ∷ a) (y ∷ q) b rest h e = ground (arith, cut_cases a q b rest h)

-- What `rfind` finds.
abbrev LastSlash : Text → Option ℕ → Type 0
LastSlash c none = NoSlash c
LastSlash c (some i) =
    (a : Text) × (b : Text) × (c ≡ a ++ (slash ∷ b)) × NoSlash b × (length a ≡ i) × (take i c ≡ a)

rfind-LastSlash : (c : Text) → LastSlash c (rfind slash c)
unfolding rfind
rfind-LastSlash [] = tt
rfind-LastSlash (x ∷ c) = extend (rfind slash c) (rfind-LastSlash c)
  where
    extend :
        (o : Option ℕ)
        → LastSlash c o
        → LastSlash
            (x ∷ c)
            (elim o [ some i ↦ some (suc i) | none ↦ if x == slash then some 0 else none ])
    extend (some i) (a, b, e, h, l, t) = (x ∷ a, b, cc, h, cc, cc)
    extend none h = elim (Bool-cases (x == slash)) [
      | inl same ↦ rw same ([], c, ground arith, h, refl, refl)
      | inr other ↦ rw other (other, h)
    ]

SegmentPrefix-length : (q c : Text) → SegmentPrefix q c → (q ≡ c) ⊎ (length q < length c)
SegmentPrefix-length q c (inl e) = inl e
SegmentPrefix-length q c (inr (inl (n, (rest, e)))) =
    inr (omega (arith, ap length e, length-append q (slash ∷ rest)))
SegmentPrefix-length q c (inr (inr (e, ([], f)))) = inl (cc)
SegmentPrefix-length q c (inr (inr (e, (x ∷ rest, f)))) =
    inr (omega (arith, ap length e, ap length f))

NoSlash-not_Above : (c q : Text) → NoSlash c → ¬ Above q c
NoSlash-not_Above c q h (inl (n, (rest, e))) = NoSlash-inside q c rest h e
NoSlash-not_Above c q h (inr (e, (rest, f))) = NoSlash-inside [] c rest h f

-- Cut at its last slash, a path loses itself as a prefix and no other.
Above-cut :
    (c a b q : Text) → c ≡ a ++ (slash ∷ b) → NoSlash b → a ≢ [] → Above q c ↔ SegmentPrefix q a
Above-cut c a b q e h n = (shorter, longer)
  where
    shorter : Above q c → SegmentPrefix q a
    shorter (inl (m, (rest, f))) = elim (cut_cases a q b rest h (sym e ∙ f)) [
      | inl same ↦ inl same
      | inr (rest', g) ↦ inr (inl (m, (rest', g)))
    ]
    shorter (inr (f, (rest, g))) = root a n (sym e ∙ g)
      where
        root : (a : Text) → a ≢ [] → a ++ (slash ∷ b) ≡ slash ∷ rest → SegmentPrefix q a
        root [] n k = absurd (n refl)
        root (x ∷ a) n k = inr (inr (f, (a, ground arith)))

    longer : SegmentPrefix q a → Above q c
    longer (inl same) = inl (rw same n, (b, rw same e))
    longer (inr (inl (m, (rest, f)))) =
        inl (m, (rest ++ (slash ∷ b), e ∙ (rw f (append_assoc q (slash ∷ rest) (slash ∷ b)))))
    longer (inr (inr (f, (rest, g)))) = inr (f, (rest ++ (slash ∷ b), e ∙ rw g refl))

module _ (m : Map Text HttpRoute) (c : Text) where
  -- A route for the whole path decides.
  Longest-here : (r s : HttpRoute) → get c m ≡ some r → (some r ≡ some s) ↔ Longest m c s
  Longest-here r s h = (
    λ e. (
      c,
      inl refl,
      h ∙ e,
      λ q p l. elim (SegmentPrefix-length q c p) [
        | inl same ↦ absurd (omega (arith, ap length same))
        | inr less ↦ absurd (omega arith)
      ],
    ),
    λ (p, sp, g, top). elim (SegmentPrefix-length p c sp) [
      | inl same ↦ sym h ∙ rw same at g
      | inr less ↦ absurd (cc (top c (inl refl) less))
    ],
  )

  -- Without one, the prefixes of the shorter path decide.
  Longest-cut :
      (a : Text) (s : HttpRoute)
      → get c m ≡ none
      → ((q : Text) → Above q c ↔ SegmentPrefix q a)
      → Longest m a s ↔ Longest m c s
  Longest-cut a s h same = (
    λ (p, sp, g, top). (
      p,
      inr ((same p).1 sp),
      g,
      λ q sq l. elim sq [ inl e ↦ rw e h | inr above ↦ top q ((same q).0 above) l ],
    ),
    λ (p, sp, g, top). elim sp [
      | inl e ↦ absurd (cc (rw e at g))
      | inr above ↦ (p, (same p).0 above, g, λ q sq l. top q (inr ((same q).1 sq)) l)
    ],
  )

  -- At the root only `/` is left.
  Longest-root :
      (b : Text) (s : HttpRoute)
      → get c m ≡ none
      → c ≡ slash ∷ b
      → NoSlash b
      → (get (text "/") m ≡ some s) ↔ Longest m c s
  Longest-root b s h e n = (
    λ g. (text "/", inr (inr (refl, (b, e))), g, λ q sq l. only q sq l),
    λ (p, sp, g, top). found p sp g,
  )
    where
      at_root : (q : Text) → Above q c → q ≡ slash ∷ []
      at_root q (inr (f, x)) = f
      at_root [] (inl (k, x)) = absurd (k refl)
      at_root (x ∷ q) (inl (k, (rest, f))) =
          absurd (NoSlash-inside q b rest n (ground (arith, e, f)))

      only : (q : Text) → SegmentPrefix q c → 1 < length q → get q m ≡ none
      only q (inl same) l = rw same h
      only q (inr above) l = absurd (omega (arith, ap length (at_root q above)))

      found : (p : Text) → SegmentPrefix p c → get p m ≡ some s → get (text "/") m ≡ some s
      found p (inl same) g = absurd (cc (rw same at g))
      found p (inr above) g = rw (at_root p above) at g

-- With fuel for every byte, the loop returns exactly the route of the longest configured segment
-- prefix.
pub resolve_prefix_iff :
    (fuel : ℕ) (m : Map Text HttpRoute) (c : Text) (r : HttpRoute)
    → length c < fuel
    → (resolve_prefix fuel m c ≡ some r) ↔ Longest m c r
unfolding resolve_prefix
resolve_prefix_iff zero m c r h = absurd (omega arith)
resolve_prefix_iff (suc fuel) m c r h = elim (Option-cases (get c m)) [
  | inr (s, e) ↦ rw (e, resolve_prefix) (Longest-here m c s r e)
  | inl e ↦
      rw (e, resolve_prefix)
        (by_slash e (rfind slash c) (rfind-LastSlash c) (resolve_prefix_iff fuel m))
]
  where
    by_slash :
        get c m ≡ none
        → (o : Option ℕ) → LastSlash c o
        → ((a : Text) (s : HttpRoute)
            → length a < fuel
            → (resolve_prefix fuel m a ≡ some s) ↔ Longest m a s)
        → (elim o [
          | none ↦ none
          | some i ↦ elim i [
            | zero ↦ get (text "/") m
            | suc n ↦ resolve_prefix fuel m (take (suc n) c)
          ]
        ]
            ≡ some r)
          ↔ Longest m c r
    by_slash e none n ih = (
      λ f. absurd (cc),
      λ (p, sp, g, top). elim sp [
        | inl same ↦ absurd (cc (rw same at g))
        | inr above ↦ absurd (NoSlash-not_Above c p n above)
      ],
    )
    by_slash e (some zero) ([], b, f, n, l, t) ih = Longest-root m c b r e f n
    by_slash e (some zero) (x ∷ a, b, f, n, l, t) ih = absurd (omega arith)
    by_slash e (some (suc k)) (a, b, f, n, l, t) ih =
        let cut =
          Longest-cut m c a r e (λ q. Above-cut c a b q f n (λ z. omega (arith, ap length z))) in
        let shorter = ih a r (omega (arith, ap length f, length-append a (slash ∷ b))) in
        rw t (λ z. cut.0 (shorter.0 z), λ z. shorter.1 (cut.1 z))
