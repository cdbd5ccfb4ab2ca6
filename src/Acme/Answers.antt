-- ===== src/Acme/Answers.antt =====
-- src/acme/http01.rs: what is answered behind any run of the two operations.
use edge_gateway.Prelude.{
  ◌≡◌, ◌∙◌, ◌↔◌, refl, false, Option, none, some, List, [], ◌∷◌, ◌++◌, contains, is_empty,
  if◌then◌else◌, ◌==◌, ==_iff, nat_eq, list_eq, arith, Option-cases, inl, inr, ap,
}
use edge_gateway.Prelude.Text.{Text, text, strip_prefix}
use edge_gateway.Prelude.Maps.{get, get-insert, get-remove, insert-IsMap, remove-IsMap, IsMap}
use edge_gateway.Prelude.Text.Suffix.{strip_prefix-eq, strip_prefix-++}
use edge_gateway.Acme.{
  Challenges, ChallengeRequest, publish, remove, handle_request, challenge_prefix, answered,
}

-- A call of `publish` or of `remove`.
pub data Change : Type 0 where
  published : Text → Text → Change
  removed : Text → Change

-- The challenges behind the calls, the last one first.
abbrev pub after : List Change → Challenges
after [] = []
after (published token key_authorization ∷ earlier) =
    publish token key_authorization (after earlier)
after (removed token ∷ earlier) = remove token (after earlier)

-- What the last call for a token says.
abbrev pub last_word : Text → List Change → Option Text
last_word token [] = none
last_word token (published t key_authorization ∷ earlier) =
    if t == token then some key_authorization else last_word token earlier
last_word token (removed t ∷ earlier) = if t == token then none else last_word token earlier

after_lem :
    (changes : List Change)
    → IsMap (after changes) × ((token : Text) → get token (after changes) ≡ last_word token changes)
unfolding publish remove get
after_lem [] = (tt, λ token. refl)
after_lem (published t k ∷ earlier) =
    let rest = after_lem earlier in
    (
      insert-IsMap t k (after earlier) rest.0,
      λ token. get-insert t token k (after earlier) ∙ rw (rest.1 token) refl,
    )
after_lem (removed t ∷ earlier) =
    let rest = after_lem earlier in
    (
      remove-IsMap t (after earlier) rest.0,
      λ token. get-remove t token (after earlier) rest.0 ∙ rw (rest.1 token) refl,
    )

-- Behind any run of calls, a request is answered with a key authorization exactly when it is a GET of
-- the challenge path with a token, not empty and without a slash, for which the last call published
-- that key authorization.
pub handle_request-after_iff :
    (changes : List Change) (request : ChallengeRequest) (key_authorization : Text)
    → (handle_request request (after changes) ≡ answered key_authorization) ↔ (
        (request.method ≡ text "GET")
        × ((token : Text) × (request.path ≡ challenge_prefix ++ token)
            × (is_empty token ≡ false)
            × (contains b'/' token ≡ false)
            × (last_word token changes ≡ some key_authorization)))
unfolding handle_request
handle_request-after_iff changes request key_authorization = (
  λ h. elim (Option-cases (strip_prefix request.path challenge_prefix)) [
    | inl none' ↦ ground arith
    | inr (token, same) ↦ (
      ground (arith, ==_iff request.method (text "GET")),
      (
        token,
        strip_prefix-eq request.path challenge_prefix token same,
        ground arith,
        ground arith,
        ground (arith, (after_lem changes).1 token),
      ),
    )
  ],
  λ h.
      let token = h.1.0 in
      let same : strip_prefix request.path challenge_prefix ≡ some token =
        ap (λ p. strip_prefix p challenge_prefix) h.1.1 ∙ strip_prefix-++ challenge_prefix token in
      ground (arith, same, (after_lem changes).1 token, ==_iff request.method (text "GET")),
)
