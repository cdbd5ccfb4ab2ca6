-- ===== src/Messages/Scan.antt =====
-- src/gateway/websocket_message.rs: what `from_utf8` answers, and the tails of open characters.
use edge_gateway.Prelude.{
  ℕ, zero, ◌+◌, ◌≤◌, ◌≡◌, sym, ap, refl, ◌⊎◌, inl, inr, true, false, Bool-cases, Option-cases,
  Option, none, some, [], ◌∷◌, ◌++◌, length, drop, arith, length-append, suc,
}
use edge_gateway.Prelude.Text.{Text}
use edge_gateway.Messages.Utf8.{
  Utf8State, boundary, step, run, is_boundary, Utf8Result, valid, incomplete, malformed, scan,
  from_utf8, run-append, missing, width, missing-step, missing-lead,
}

-- A tail that the sequence keeps: nothing, or the bytes of one open character.
abbrev pub IsTail : Text → Utf8State → Type 0
IsTail [] q = q ≡ boundary
IsTail (first ∷ tail) q =
    (run boundary (first ∷ tail) ≡ some q)
    × (is_boundary q ≡ false)
    × (length (first ∷ tail) + missing q ≡ width first)

-- One more byte.
IsTail-step :
    (tail : Text) (q r : Utf8State) (b : ℕ)
    → IsTail tail q
    → step q b ≡ some r
    → is_boundary r ≡ false
    → IsTail (tail ++ (b ∷ [])) r
unfolding run
IsTail-step [] q r b t e o =
    (ground (arith, t), o, omega (arith, missing-lead r b (ground (arith, t)) o))
IsTail-step (first ∷ tail) q r b (read, o', n) e o = (
  ground (arith, run-append boundary (first ∷ tail) (b ∷ [])),
  o,
  omega (arith, length-append tail (b ∷ []), missing-step q r b o' e),
)

pub append_assoc : (a b c : Text) → (a ++ b) ++ c ≡ a ++ (b ++ c)
append_assoc [] b c = refl
append_assoc (x ∷ a) b c = ap (λ s. x ∷ s) (append_assoc a b c)

pub append_nil : (a : Text) → a ++ [] ≡ a
append_nil [] = refl
append_nil (x ∷ a) = ap (λ s. x ∷ s) (append_nil a)

drop_all : (s : Text) → drop (length s) s ≡ []
drop_all [] = refl
drop_all (b ∷ s) = drop_all s

drop-append : (d : ℕ) (a b : Text) → d ≤ length a → drop d (a ++ b) ≡ drop d a ++ b
drop-append zero a b h = refl
drop-append (suc d) [] b h = absurd (omega arith)
drop-append (suc d) (x ∷ a) b h = drop-append d a b (omega arith)

pub closed-boundary : (q : Utf8State) → is_boundary q ≡ true → q ≡ boundary
closed-boundary q h = ground arith

-- What a scan answers, by the state that the bytes lead to: where the text ends in a character, the
-- tail is behind the last whole one.
abbrev pub Scanned : Option Utf8State → Utf8Result → Text → Type 0
Scanned none result whole = (d : ℕ) × (result ≡ malformed d)
Scanned (some r) result whole =
    ((is_boundary r ≡ true) × (result ≡ valid))
    ⊎ ((is_boundary r ≡ false) × ((d : ℕ) × (result ≡ incomplete d) × IsTail (drop d whole) r))

scan-Scanned :
    (q : Utf8State) (done : ℕ) (pre s : Text)
    → done ≤ length pre
    → IsTail (drop done pre) q
    → Scanned (run q s) (scan q done (length pre) s) (pre ++ s)
unfolding run scan
scan-Scanned q done pre [] h t = elim (Bool-cases (is_boundary q)) [
  | inl closed ↦ inl (closed, rw closed refl)
  | inr open' ↦ inr (open', (done, rw open' refl, rw (append_nil pre) t))
]
scan-Scanned q done pre (b ∷ s) h t = elim (Option-cases (step q b)) [
  | inl bad ↦
      let read_is : run q (b ∷ s) ≡ none = ground arith in
      let scan_is : scan q done (length pre) (b ∷ s) ≡ malformed done = ground arith in
      rw (read_is, scan_is) (done, refl)
  | inr (r, next) ↦
      let pre' = pre ++ (b ∷ []) in
      let longer : length pre' ≡ length pre + 1 = omega (arith, length-append pre (b ∷ [])) in
      let whole : pre ++ (b ∷ s) ≡ pre' ++ s = sym (append_assoc pre (b ∷ []) s) in
      let read_is : run q (b ∷ s) ≡ run r s = ground arith in
      elim (Bool-cases (is_boundary r)) [
        | inl closed ↦
            let scan_is : scan q done (length pre) (b ∷ s) ≡ scan r (length pre') (length pre') s =
              ground arith in
            rw (read_is, scan_is, whole)
              (scan-Scanned r (length pre') pre' s (omega arith)
                (rw (drop_all pre') (closed-boundary r closed)))
        | inr open' ↦
            let scan_is : scan q done (length pre) (b ∷ s) ≡ scan r done (length pre') s =
              ground arith in
            rw (read_is, scan_is, whole)
              (scan-Scanned r done pre' s (omega (arith, longer, h)) (
                rw (drop-append done pre (b ∷ []) h)
                  (IsTail-step (drop done pre) q r b t next open')))
      ]
]

pub from_utf8-Scanned : (s : Text) → Scanned (run boundary s) (from_utf8 s) s
unfolding from_utf8
from_utf8-Scanned s = scan-Scanned boundary 0 [] s (omega arith) refl
