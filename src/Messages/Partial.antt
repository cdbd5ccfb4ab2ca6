-- ===== src/Messages/Partial.antt =====
-- src/gateway/websocket_message.rs: `validate_utf8` reads a text in slices as if it were whole.
use edge_gateway.Prelude.{
  ℕ, zero, ◌+◌, ◌-◌, ◌≤◌, ◌<◌, ◌≡◌, ◌∙◌, ap, refl, ◌⊎◌, inl, inr, Bool, true, false, not, ◌&&◌,
  Bool-cases, Option-cases, Option, none, some, [], ◌∷◌, ◌++◌, length, take, drop, min, arith,
  length-take, length-append, Result, ok, err, if◌then◌else◌, suc,
}
use edge_gateway.Prelude.Text.{Text}
use edge_gateway.Messages.Utf8.{
  Utf8State, boundary, step, run, is_boundary, Utf8Result, valid, incomplete, malformed, from_utf8,
  run-append, missing, width, missing-step,
}
use edge_gateway.Messages.{WebSocketError, invalid_utf8, validate_rest, validate_utf8}
use edge_gateway.Messages.Scan.{IsTail, Scanned, closed-boundary, from_utf8-Scanned}

-- What a slice does: an error where a byte cannot stand there, or the last slice ends in a character;
-- and otherwise the tail of the state that the bytes lead to.
abbrev pub Accepted : Option Utf8State → Bool → Text × Result WebSocketError (Unit {0}) → Type 0
Accepted none final answer = answer.1 ≡ err invalid_utf8
Accepted (some r) final answer =
    (((final && not (is_boundary r)) ≡ true) × (answer.1 ≡ err invalid_utf8))
    ⊎ (((final && not (is_boundary r)) ≡ false) × (answer.1 ≡ ok tt) × IsTail answer.0 r)

validate_rest-Accepted :
    (slice : Text) (final : Bool) → Accepted (run boundary slice) final (validate_rest slice final)
unfolding validate_rest
validate_rest-Accepted slice final =
    go (run boundary slice) (from_utf8 slice) refl (from_utf8-Scanned slice)
  where
    go :
        (o : Option Utf8State) (result : Utf8Result)
        → from_utf8 slice ≡ result
        → Scanned o result slice
        → Accepted o final (validate_rest slice final)
    go none result e (d, bad) = ground arith
    go (some r) result e (inl (closed, fine)) =
        let whole : validate_rest slice final ≡ ([], ok tt) = ground arith in
        inr (ground arith, ground arith, rw whole (closed-boundary r closed))
    go (some r) result e (inr (open', (d, short, tail))) = elim (Bool-cases final) [
      | inl last ↦ inl (ground arith, ground arith)
      | inr more ↦
          let kept : validate_rest slice final ≡ (drop d slice, ok tt) = ground arith in
          inr (ground arith, ground arith, rw kept tail)
    ]

-- Nothing is left to read behind the last missing byte.
ends : (x r : Utf8State) (s : Text) → length s ≡ 0 → x ≡ boundary → run x s ≡ some r → r ≡ boundary
unfolding run
ends x r [] n e h = ground arith
ends x r (b ∷ s) n e h = absurd (omega arith)

-- An open character takes exactly the missing bytes.
run-closes :
    (q r : Utf8State) (s : Text)
    → is_boundary q ≡ false
    → run q s ≡ some r
    → length s ≤ missing q
    → missing r + length s ≡ missing q
unfolding run
run-closes q r [] o e n = ground arith
run-closes q r (b ∷ s) o e n = elim (Option-cases (step q b)) [
  | inl bad ↦ absurd (ground arith)
  | inr (x, next) ↦ elim (Bool-cases (is_boundary x)) [
    | inr open' ↦ omega (
      arith,
      run-closes x r s open' (ground arith) (omega (arith, n, missing-step q x b o next)),
      missing-step q x b o next,
    )
    | inl closed ↦
        let at_end = closed-boundary x closed in
        let none_left : length s ≡ 0 = ground (arith, missing-step q x b o next) in
        let here = ends x r s none_left at_end (ground arith) in
        ground (arith, missing-step q x b o next)
  ]
]

take-drop : (n : ℕ) (s : Text) → take n s ++ drop n s ≡ s
take-drop zero s = refl
take-drop (suc n) [] = refl
take-drop (suc n) (b ∷ s) = ap (λ t. b ∷ t) (take-drop n s)

drop_none : (n : ℕ) (s : Text) → length s ≤ n → drop n s ≡ []
drop_none zero [] h = refl
drop_none zero (b ∷ s) h = absurd (omega arith)
drop_none (suc n) [] h = refl
drop_none (suc n) (b ∷ s) h = drop_none n s (omega arith)

missing-pos : (r : Utf8State) → is_boundary r ≡ false → 0 < missing r
missing-pos r h = ground arith

run_nil : (r : Utf8State) → run r [] ≡ some r
unfolding run
run_nil r = refl

-- What follows the completion of the open character, with its bytes and the rest of the slice.
abbrev resume : Text → Text → Bool → Text × Result WebSocketError (Unit {0})
resume bytes rest final = elim (from_utf8 bytes) [
  | valid ↦ validate_rest rest final
  | incomplete valid_up_to ↦ (bytes, if final then err invalid_utf8 else ok tt)
  | malformed valid_up_to ↦ (bytes, err invalid_utf8)
]

resume-Accepted :
    (bytes rest : Text) (final : Bool) (o : Option Utf8State)
    → Scanned o (from_utf8 bytes) bytes
    → ((r : Utf8State) → o ≡ some r → is_boundary r ≡ false → (rest ≡ []) × IsTail bytes r)
    → Accepted (elim o [ none ↦ none | some r ↦ run r rest ]) final (resume bytes rest final)
resume-Accepted bytes rest final none (d, bad) k =
    let answer : resume bytes rest final ≡ (bytes, err invalid_utf8) = ground arith in
    rw answer refl
resume-Accepted bytes rest final (some r) (inl (closed, fine)) k =
    let answer : resume bytes rest final ≡ validate_rest rest final = ground arith in
    rw (answer, closed-boundary r closed) (validate_rest-Accepted rest final)
resume-Accepted bytes rest final (some r) (inr (still, (d, cut, more))) k =
    let (nothing, tail) = k r refl still in
    let read : run r rest ≡ some r = rw nothing (run_nil r) in
    elim (Bool-cases final) [
      | inl last ↦ rw read (inl (ground arith, ground arith))
      | inr open' ↦
          let answer : resume bytes rest final ≡ (bytes, ok tt) = ground arith in
          rw (read, answer) (inr (ground arith, refl, tail))
    ]

-- A slice is read in the state that the tail stands for.
pub validate_utf8-Accepted :
    (tail : Text) (q : Utf8State) (slice : Text) (final : Bool)
    → IsTail tail q
    → Accepted (run q slice) final (validate_utf8 tail slice final)
unfolding validate_utf8
validate_utf8-Accepted [] q slice final t = rw t (validate_rest-Accepted slice final)
validate_utf8-Accepted (first ∷ tail) q slice final (read, open', n) =
    let count = min (width first - length (first ∷ tail)) (length slice) in
    let part = take count slice in
    let rest = drop count slice in
    let bytes : Text = (first ∷ tail) ++ part in
    let sized = length-take count slice in
    let short : length part ≤ missing q = omega (arith, n, sized) in
    let whole : run q slice ≡ elim (run q part) [ none ↦ none | some r ↦ run r rest ] =
      rw (take-drop count slice) at (run-append q part rest) in
    let grown : run boundary bytes ≡ run q part =
      ground (arith, run-append boundary (first ∷ tail) part) in
    let checked : Scanned (run q part) (from_utf8 bytes) bytes =
      rw grown at (from_utf8-Scanned bytes) in
    rw whole (
      resume-Accepted bytes rest final (run q part) checked (λ r e still.
        let left = run-closes q r part open' e short in
        let pos : 0 < missing r = missing-pos r still in
        (
          drop_none count slice (omega (arith, left, pos, n, sized)),
          (grown ∙ e, still, omega (arith, length-append tail part, left, n)),
        )))
