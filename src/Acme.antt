-- ===== src/Acme.antt =====
-- src/acme/http01.rs: the challenges that the HTTP-01 listener answers.
pub mod Answers
mod Tests
use edge_gateway.Prelude.{
  ℕ, Bool, not, ◌||◌, Option, none, some, List, [], ◌∷◌, contains, is_empty, if◌then◌else◌, ◌==◌,
  nat_eq, list_eq,
}
use edge_gateway.Prelude.Text.{Text, text, strip_prefix}
use edge_gateway.Prelude.Maps
use edge_gateway.Prelude.Maps.{Map, get, insert}

unfoldable pub challenge_prefix : Text
challenge_prefix = text "/.well-known/acme-challenge/"

-- The key authorizations by token.
abbrev pub Challenges : Type 0
Challenges = Map Text Text

unfoldable pub publish : Text → Text → Challenges → Challenges
publish token key_authorization challenges = insert token key_authorization challenges

unfoldable pub remove : Text → Challenges → Challenges
remove token challenges = Maps.remove token challenges

-- A request, and what the function reads of it.
pub record ChallengeRequest : Type 0 where
  pub method : Text
  pub path : Text

pub data ChallengeResponse : Type 0 where
  method_not_allowed not_found : ChallengeResponse
  answered : Text → ChallengeResponse

unfoldable pub handle_request : ChallengeRequest → Challenges → ChallengeResponse
handle_request request challenges =
    if not (request.method == text "GET")
    then method_not_allowed
    else elim (strip_prefix request.path challenge_prefix) [
      | none ↦ not_found
      | some token ↦
          if is_empty token || contains b'/' token then not_found else elim (get token challenges) [
            | none ↦ not_found
            | some key_authorization ↦ answered key_authorization
          ]
    ]
