-- ===== src/Acme/Tests.antt =====
-- Runs of the challenges, and their theorem at a run of three calls.
use edge_gateway.Prelude.{
  ◌≡◌, ◌↔◌, ◌++◌, refl, false, some, List, [], ◌∷◌, is_empty, contains, nat_eq, list_eq,
}
use edge_gateway.Prelude.Text.{Text, text, text_run}
use edge_gateway.Prelude.Maps
use edge_gateway.Acme.{
  ChallengeRequest, publish, remove, handle_request, challenge_prefix, answered, not_found,
}
use edge_gateway.Acme.Answers.{
  Change, published, removed, after, last_word, handle_request-after_iff,
}

run : Unit {0}
unfolding text_run Maps.get Maps.insert Maps.remove publish remove handle_request challenge_prefix
run = tt

abbrev changes : List Change
changes =
    removed (text "b")
    ∷ published (text "a") (text "key-a")
    ∷ published (text "b") (text "key-b")
    ∷ []

abbrev request : ChallengeRequest
request = record { method = text "GET"; path = text "/.well-known/acme-challenge/a" }

answer_tests :
    (handle_request request (after changes) ≡ answered (text "key-a"))
    × (handle_request
          (record request { path = text "/.well-known/acme-challenge/b" })
          (after changes)
        ≡ not_found)
unfolding run
answer_tests = (refl, refl)

handle_request-after_iff_example :
    (handle_request request (after changes) ≡ answered (text "key-a")) ↔ (
      (text "GET" ≡ text "GET")
      × ((token : Text) × (text "/.well-known/acme-challenge/a" ≡ challenge_prefix ++ token)
          × (is_empty token ≡ false)
          × (contains b'/' token ≡ false)
          × (last_word token changes ≡ some (text "key-a"))))
handle_request-after_iff_example = handle_request-after_iff changes request (text "key-a")
