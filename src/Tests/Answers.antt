-- ===== src/Tests/Answers.antt =====
-- The theorems on the response parser, at concrete answers.
use getemail.Base.{
  ℕ, zero, suc, ◌≡◌, ◌≤◌, ◌⊎◌, refl, inl, inr, arith, [], ◌∷◌, ◌++◌, Bytes, codes, none, some,
}
use getemail.Pop2.Command.{Command}
use getemail.Pop2.Env
use getemail.Pop2.Env.{Env, IResult, done, incomplete, error, not_ready}
use getemail.Pop2.Queue
use getemail.Pop2.Buffer
use getemail.Pop2.Buffer.Bounds.{new-IsValid}
use getemail.Pop2.Stream
use getemail.Pop2.Stream.{PopStream}
use getemail.Pop2.Stream.Read.{read_response}
use getemail.Pop2.Stream.Progress.{Anywhere, Delivers, Anything, IsIdle}
use getemail.Pop2.Stream.Responds.{replied}
use getemail.Pop2.Response.{Response}
use getemail.Pop2.Parser.{parse, with_parser}
use getemail.Pop2.Parser.Rfc1939.{new_text}
use getemail.Pop2.Parser.Listings.{IdLine}
use getemail.Pop2.Parser.Rfc1939.{new_number}
use getemail.Pop2.Response.{Capability, time}
use getemail.Pop2.Parser.Answers.{capabilities, Answer, ids, written, value}
use getemail.Base.Exec.{ok}
use getemail.Pop2.Types.Value
use getemail.Pop2.Response.{Stat}
use getemail.Pop2.Parser.Answers.Numbers.{maildrop, parse-maildrop}
use getemail.Pop2.Parser.Challenges.{parse-challenge, read_response-challenge, challenge_line}
use getemail.Tests.World.{Script, world, world-LawfulBuffers, script-Delivers}
use getemail.Tests.Nom.{nom, nom-LawfulPrimitives, nom-LawfulCombinators}

-- Answers, and the stream that they arrive at.
abbrev first_id : IdLine
first_id = record { index = codes "1"; gap = codes " "; unique = codes "whqtsw" }

abbrev second_id : IdLine
second_id = record { index = codes "2"; gap = codes " "; unique = codes "QhdPYR" }

abbrev listing : Answer
listing = ids (codes "unique-id listing follows") (first_id ∷ second_id ∷ [])

abbrev stated : Answer
stated = capabilities (codes "Capability list follows") (
    Capability.uidl
    ∷ Capability.sasl (codes "PLAIN" ∷ codes "CRAM-MD5" ∷ [])
    ∷ Capability.expire
        (time (record { inner = new_number (codes "30"); to_secs_multiplier = 86400 }))
    ∷ Capability.other (new_text (codes "XYZ"))
    ∷ [])

parse-maildrop_example :
    (s : Stat) × (parse nom some
        (written (codes " ") (maildrop 2 320) ++ codes "+OK\r\n")
        Command.stat
      ≡ done (codes "+OK\r\n") (Response.stat s))
    × (Value.value s.message_count ≡ ok 2)
    × (Value.value s.size ≡ ok 320)
parse-maildrop_example =
    parse-maildrop nom nom-LawfulPrimitives nom-LawfulCombinators some 2 320 (codes "+OK\r\n")
      (omega arith) (omega arith)

abbrev pieces : Script
pieces = record {
  offers =
      Env.received (codes "+OK unique-id listing follows")
      ∷ not_ready
      ∷ Env.received (codes "\r\n1 whqtsw\r\n2 QhdPYR\r\n.")
      ∷ Env.received (codes "\r\n")
      ∷ [];
  sent = [];
}

unfoldable pub connection : Script → PopStream (with_parser world nom)
unfolding with_parser
connection socket = Stream.new (with_parser world nom) socket

pub connection-IsIdle :
    (socket : Script) (n : ℕ) → 2 ≤ n → IsIdle (with_parser world nom) n (connection socket)
unfolding connection Stream.new Queue.new with_parser Buffer.new
connection-IsIdle socket n h = record {
  valid = new-IsValid world world-LawfulBuffers;
  no_bytes = unfold Buffer.new in refl;
  no_command = refl;
  needs = omega arith;
}

unfoldable pub OnScript : (Script → Type 0) → (with_parser world nom).Socket → Type 0
unfolding with_parser
OnScript Then = Then

-- What the socket delivers is not the parser's matter.
pub parser-Delivers :
    (May : Bytes → Type 0) (Then : Script → Type 0) (n : ℕ) (socket : Script) (bs : Bytes)
    → Delivers world May Then n socket bs
    → Delivers (with_parser world nom) May (OnScript Then) n (connection socket).stream bs
unfolding connection OnScript Stream.new with_parser
parser-Delivers May Then zero socket bs d = d
parser-Delivers May Then (suc n) socket bs (inl e) = inl e
parser-Delivers May Then (suc n) socket bs (inr (ne, offers)) = inr (
  ne,
  λ free pos space. elim (offers free pos space) [
    | inl (later, p, d) ↦ inl (later, p, parser-Delivers May Then n later bs d)
    | inr (chunk, rest, later, p, e, k, may, d) ↦
        inr (chunk, rest, later, p, e, k, may, parser-Delivers May Then n later rest d)
  ],
)

-- Nothing is said of what is offered later.
abbrev pub Whatever : (with_parser world nom).Socket → Type 0
Whatever = OnScript (Anything world)

-- A challenge, which this environment decodes to itself.
parse-challenge_example :
    ((secret : Bytes) × (some (codes "c2VjcmV0") ≡ some secret)
      × (parse nom some (challenge_line (codes " ") (codes "c2VjcmV0") ++ []) Command.auth
          ≡ done [] (Response.challenge (new_text secret))))
    ⊎ ((some (codes "c2VjcmV0") ≡ none)
        × (parse nom some (challenge_line (codes " ") (codes "c2VjcmV0") ++ []) Command.auth
            ≡ error))
parse-challenge_example =
    parse-challenge nom nom-LawfulPrimitives nom-LawfulCombinators some Command.auth (codes " ")
      (codes "c2VjcmV0") [] (inl refl) (refl, tt) (omega arith, refl)

abbrev challenged : Script
challenged = record {
  offers = Env.received (codes "+ c2Vj") ∷ Env.received (codes "cmV0\r\n") ∷ [];
  sent = [];
}

challenged-Delivers :
    Delivers
      (with_parser world nom)
      Anywhere
      Whatever
      20
      (connection challenged).stream
      (challenge_line (codes " ") (codes "c2VjcmV0"))
challenged-Delivers =
    parser-Delivers Anywhere (Anything world) 20 challenged
      (challenge_line (codes " ") (codes "c2VjcmV0"))
      (script-Delivers Anywhere (Anything world) 20 challenged.offers [] [] (omega arith)
        (omega arith) tt)

read_response-challenge_example :
    (s : PopStream (with_parser world nom)) × (read_response
        (with_parser world nom)
        21
        Command.auth
        (connection challenged)
      ≡ (replied (Response.challenge (new_text (codes "c2VjcmV0"))), s))
    × IsIdle (with_parser world nom) 12 s
    × Whatever s.stream
read_response-challenge_example =
    read_response-challenge nom nom-LawfulPrimitives nom-LawfulCombinators world world-LawfulBuffers
      Command.auth (codes " ") (codes "c2VjcmV0") (codes "c2VjcmV0") Whatever 20 21
      (connection challenged) (inl refl) (refl, tt) (omega arith, refl) refl (omega arith)
      (connection-IsIdle challenged 12 (omega arith)) challenged-Delivers (omega arith)
