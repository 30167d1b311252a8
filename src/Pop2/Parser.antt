-- ===== src/Pop2/Parser.antt =====
-- async-pop2/src/response/parser/mod.rs, with rfc1734.rs: a response is parsed as the one to a command.
pub mod Core
pub mod Rfc1939
pub mod Rfc2449
pub mod Streams
pub mod Primitives
pub mod Lines
pub mod Whole
pub mod Asked
pub mod Replies
pub mod Stats
pub mod Messages
pub mod Endings
pub mod Listings
pub mod Headings
pub mod Answers
pub mod Challenges
pub mod Choices
pub mod Keywords
pub mod Capabilities
use getemail.Base.{[], ◌∷◌, Bytes, codes, Option, none, some, Bool, true, false}
use getemail.Pop2.Command.{Command, uidl, top, retr, list, stat, auth, capa, base64}
use getemail.Pop2.Env.{Env, IResult, done, incomplete, error, failure, unknown}
use getemail.Pop2.Response.{Response}
use getemail.Pop2.Nom.{Nom, Parser, pure, ◌>>=◌, ◌>>◌}
use getemail.Pop2.Parser.Core.{message_parser, unwrap_or_empty}
use getemail.Pop2.Parser.Rfc1939.{
  new_text, status, stat_response, list_response, uidl_response, uidl_list_response,
  rfc822_response, error_response, string_response,
}
use getemail.Pop2.Parser.Rfc2449.{capability_response}

module _ (nom : Nom) where
  -- rfc1734.rs
  unfoldable pub challenge : Parser Bytes
  challenge = do
    nom.tag (codes "+")
    nom.space1
    content ← message_parser nom
    pure (unwrap_or_empty content)

  unfoldable pub success_response : Command → Parser Response
  success_response stat = stat_response nom
  success_response uidl = nom.alt (uidl_response nom ∷ uidl_list_response nom ∷ [])
  success_response list = nom.alt (stat_response nom ∷ list_response nom ∷ [])
  success_response retr = rfc822_response nom
  success_response top = rfc822_response nom
  success_response capa = capability_response nom
  success_response _ = string_response nom

  unfoldable pub by_status : Command → Bool → Parser Response
  unfolding success_response
  by_status request true = success_response request
  by_status request false = error_response nom

  unfoldable pub status_response : Command → Parser Response
  unfolding by_status
  status_response request = do status ← status nom; by_status request status.success

  -- What the attempt at a challenge comes to; what is no challenge is parsed with its status.
  decoded : Bytes → Option Bytes → IResult Response → IResult Response
  decoded rest none otherwise = otherwise
  decoded rest (some challenge) otherwise = done rest (Response.challenge (new_text challenge))

  unfoldable pub after_challenge :
      (Bytes → Option Bytes) → IResult Bytes → IResult Response → IResult Response
  unfolding decoded
  after_challenge decode (done rest base64_challenge) otherwise =
      decoded rest (decode base64_challenge) otherwise
  after_challenge decode (incomplete needed) otherwise = incomplete needed
  after_challenge decode error otherwise = otherwise
  after_challenge decode failure otherwise = otherwise

  pub by_request : (Bytes → Option Bytes) → Command → Parser Response
  unfolding challenge after_challenge
  by_request decode (base64 s) input =
      after_challenge decode (challenge input) (status_response (base64 s) input)
  by_request decode auth input =
      after_challenge decode (challenge input) (status_response auth input)
  by_request decode request input = status_response request input

  unfoldable pub parse : (Bytes → Option Bytes) → Bytes → Command → IResult Response
  unfolding by_request status_response
  parse decode [] request = incomplete unknown
  parse decode (c ∷ cs) request = by_request decode request (c ∷ cs)

-- `Response::from_bytes`: the environment of a client, with this parser in it.
unfoldable pub with_parser : Env → Nom → Env
unfolding parse
with_parser env nom = record env { from_bytes = parse nom env.base64_decode }
