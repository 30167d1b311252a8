-- ===== src/Tests/Answered.antt =====
-- A request of the client and the answer to it, in the scripted environment.
use getemail.Base.{◌≡◌, ◌++◌, refl, arith, [], ◌∷◌, codes, true, none, some}
use getemail.Base.Exec.{ok}
use getemail.Pop2.Command
use getemail.Pop2.Request
use getemail.Pop2.Request.{Request}
use getemail.Pop2.Env
use getemail.Pop2.Env.{not_ready}
use getemail.Pop2.Stream
use getemail.Pop2.Stream.{PopStream, end_of_line}
use getemail.Pop2.Stream.Progress.{Anywhere, Delivers, Anything, IsIdle}
use getemail.Pop2.Client.{Client, transaction}
use getemail.Pop2.Client.Commands.{numbered, retr}
use getemail.Pop2.Client.Answered.{Sends, retr-mail}
use getemail.Pop2.Parser.{with_parser}
use getemail.Pop2.Parser.Answers.{Answer, mail, written}
use getemail.Tests.World.{Script, world, world-LawfulBuffers, script-Delivers}
use getemail.Tests.Nom.{nom, nom-LawfulPrimitives, nom-LawfulCombinators}
use getemail.Tests.Answers.{connection, OnScript, connection-IsIdle, parser-Delivers, Whatever}

-- A message of two lines, of which the second begins with a dot.
abbrev message : Answer
message = mail (codes "message follows") (codes "Subject: dots") (codes ".hidden" ∷ [])

abbrev pieces : Script
pieces = record {
  offers =
      not_ready
      ∷ Env.received (codes "+OK message follows\r\nSubject: do")
      ∷ Env.received (codes "ts\r\n..hidden\r\n.\r\n")
      ∷ [];
  sent = [];
}

abbrev session : Client (with_parser world nom)
session = record {
  inner = some (connection pieces);
  capabilities = [];
  marked_as_del = [];
  greeting = none;
  read_greeting = true;
  state = transaction;
}

abbrev request : Request
request = numbered Command.retr (some 1)

-- The socket behind the request.
abbrev after : (with_parser world nom).Socket
unfolding with_parser
after = record pieces { sent = Request.display world.base64_encode request ++ end_of_line }

request-Sends :
    Sends
      (with_parser world nom)
      (Request.display world.base64_encode request)
      (connection pieces).stream
      after
unfolding Stream.new with_parser connection OnScript Request.display
request-Sends = record {
  behind_text = record pieces { sent = Request.display world.base64_encode request };
  behind_line = after;
  text = refl;
  line = refl;
  flushed = refl;
}

message-Delivers :
    Delivers (with_parser world nom) Anywhere Whatever 60 after (written (codes " ") message)
unfolding Stream.new with_parser connection OnScript Request.display
message-Delivers =
    parser-Delivers Anywhere (Anything world) 60 after (written (codes " ") message) (
      script-Delivers Anywhere (Anything world) 60 pieces.offers []
        (Request.display world.base64_encode request ++ end_of_line) (omega arith) (omega arith) tt)

retr-mail_example :
    (s : PopStream (with_parser world nom)) × (retr (with_parser world nom) 61 1 session ≡ (
      ok (codes "Subject: dots\r\n..hidden"),
      record session { inner = some s; marked_as_del = [] },
    ))
    × IsIdle (with_parser world nom) 11 s
    × Whatever s.stream
unfolding with_parser
retr-mail_example =
    retr-mail nom nom-LawfulPrimitives nom-LawfulCombinators world world-LawfulBuffers 1
      (codes "message follows") (codes "Subject: dots") (codes ".hidden" ∷ []) (codes " ") 11
      Whatever 60 61 session (connection pieces) after refl refl refl (refl, tt) (omega arith, refl)
      (omega arith) (omega arith) (omega arith) (connection-IsIdle pieces 11 (omega arith))
      request-Sends message-Delivers (omega arith)
