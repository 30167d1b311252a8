-- ===== src/Tests/Fetched.antt =====
-- The reader of POP3 against a scripted server, from the greeting to the last mail.
use getemail.Base.{
  ℕ, ◌≡◌, ◌<◌, ◌≤◌, refl, subst, arith, inl, List, [], ◌∷◌, ◌++◌, Bytes, codes, length,
  length-append, ◌+◌,
}
use getemail.Pop2.Request
use getemail.Pop2.Request.{Request}
use getemail.Pop2.Env
use getemail.Pop2.Env.{ReadEvent, not_ready}
use getemail.Pop2.Stream
use getemail.Pop2.Stream.{end_of_line}
use getemail.Pop2.Stream.Progress.{Anywhere, Delivers}
use getemail.Pop2.Parser.Streams.{NotLineFeed}
use getemail.Pop2.Parser.Replies.{short-IsChunked}
use getemail.Pop2.Parser.Answers.Asks.{MayEnd}
use getemail.Pop2.Client.Answered.{Sends}
use getemail.Pop2.Client.Commands.{numbered}
use getemail.Pop2.Client.Talks.{Exchange, Talks, Serves, ServesAll, answered}
use getemail.Pop2.Client.Greeted.{Reply, asking_capa, said}
use getemail.Pop2.Client.Features.{any_sasl}
use getemail.Pop2.Client.Opened.{Opens, greets}
use getemail.Pop2.Parser.{with_parser}
use getemail.Pop2.Parser.Answers.{refusal, HasText, IsMessage}
use getemail.Pop2.Parser.Answers.Numbers.{Some-decimal}
use getemail.Pop2.Parser.Lines.{crlf}
use getemail.Pop2.Parser.Stats.{line_of}
use getemail.Base.Decimal.{decimal}
use getemail.Mail.Pop3.{Pop3}
use getemail.Mail.Pop3.Served.{Mail, maildrop_conversation}
use getemail.Mail.Pop3.Fetched.{Manners, whole_conversation}
use getemail.Tests.World.{Script, world, offered, polls, IsWhole, script-Delivers}
use getemail.Tests.Nom.{nom}
use getemail.Tests.Answers.{connection, OnScript, parser-Delivers}
use getemail.Tests.Mail.{me}

abbrev pub raw : Script → (with_parser world nom).Socket
unfolding with_parser
raw s = s

abbrev all_events : List (List ReadEvent) → List ReadEvent
all_events [] = []
all_events (es ∷ ess) = es ++ all_events ess

-- Each answer comes in the pieces at its place.
abbrev Spoken : ℕ → List Exchange → List (List ReadEvent) → Type 0
Spoken fuel [] [] = Unit {0}
Spoken fuel (x ∷ xs) (es ∷ ess) =
    ((offered es ≡ answered x) × IsWhole (MayEnd x.answer) es × (polls es < fuel))
    × Spoken fuel xs ess
Spoken fuel _ _ = ⊥

script-Sends :
    (offers : List ReadEvent) (sent bs : Bytes)
    → Sends
        (with_parser world nom)
        bs
        (raw (record { offers = offers; sent = sent }))
        (raw (record { offers = offers; sent = (sent ++ bs) ++ end_of_line }))
unfolding with_parser
script-Sends offers sent bs = record {
  behind_text = record { offers = offers; sent = sent ++ bs };
  behind_line = record { offers = offers; sent = (sent ++ bs) ++ end_of_line };
  text = refl;
  line = refl;
  flushed = refl;
}

abbrev TalksOf : ℕ → List Exchange → Script → Type 0
unfolding with_parser
TalksOf fuel xs s = Talks (with_parser world nom) fuel xs s

-- The pieces of one answer come, and the socket goes on as `Then` says.
script-piece :
    (May : Bytes → Type 0) (Then : Script → Type 0) (es rest : List ReadEvent) (sent bs : Bytes)
    → offered es ≡ bs
    → IsWhole May es
    → Then (record { offers = rest; sent = sent })
    → Delivers
        (with_parser world nom)
        May
        (OnScript Then)
        (polls es)
        (raw (record { offers = es ++ rest; sent = sent }))
        bs
unfolding raw OnScript connection with_parser Stream.new
script-piece May Then es rest sent bs e whole t =
    parser-Delivers May Then (polls es) (record { offers = es ++ rest; sent = sent }) bs
      (subst
        (λ bs. Delivers world May Then (polls es) (record { offers = es ++ rest; sent = sent }) bs)
        e (script-Delivers May Then (polls es) es rest sent whole (omega arith) t))

script-Talks :
    (fuel : ℕ) (xs : List Exchange) (ess : List (List ReadEvent)) (sent : Bytes)
    → Spoken fuel xs ess
    → TalksOf fuel xs (record { offers = all_events ess; sent = sent })
unfolding TalksOf raw OnScript with_parser
script-Talks fuel [] [] sent h = tt
script-Talks fuel [] (es ∷ ess) sent h = absurd h
script-Talks fuel (x ∷ xs) [] sent h = absurd h
script-Talks fuel (x ∷ xs) (es ∷ ess) sent h =
    let bs = Request.display world.base64_encode x.request in
    (
      record { offers = es ++ all_events ess; sent = (sent ++ bs) ++ end_of_line },
      polls es,
      script-Sends (es ++ all_events ess) sent bs,
      script-piece (MayEnd x.answer) (TalksOf fuel xs) es (all_events ess)
          ((sent ++ bs) ++ end_of_line) (answered x) h.0.0 h.0.1
          (script-Talks fuel xs ess ((sent ++ bs) ++ end_of_line) h.1),
      h.0.2,
    )

abbrev reply : Bytes → Reply
reply text = record { spaces = codes " "; text = text }

-- A server that knows no CAPA.
abbrev pub manners : Manners
manners = record {
  greeting = reply (codes "ready");
  spaces = codes " ";
  capabilities = refusal (codes "what");
  first = reply (codes "go on");
  second = reply (codes "welcome");
  spaces_behind = codes " ";
  capabilities_behind = refusal (codes "what");
}

abbrev pub two_mails : List Mail
two_mails =
    record { title = codes "here"; line = codes "ab"; lines = codes ".c" ∷ []; spaces = codes " " }
    ∷ record { title = codes "here"; line = codes "xyz"; lines = []; spaces = codes " " }
    ∷ []

abbrev pub two_messages : List Bytes
two_messages = codes "ab\r\n..c" ∷ codes "xyz" ∷ []

abbrev pub conversation : List Exchange
conversation =
    whole_conversation (with_parser world nom) 60 me manners (maildrop_conversation 9 two_mails)

abbrev pieces : List (List ReadEvent)
pieces =
    (Env.received (codes "-ERR what\r\n") ∷ [])
    ∷ (Env.received (codes "+OK go on\r\n") ∷ [])
    ∷ (not_ready ∷ Env.received (codes "+OK wel") ∷ Env.received (codes "come\r\n") ∷ [])
    ∷ (Env.received (codes "-ERR what\r\n") ∷ [])
    ∷ (Env.received (codes "+OK 2 ") ∷ not_ready ∷ Env.received (codes "9\r\n") ∷ [])
    ∷ (Env.received (codes "+OK here\r\nab\r") ∷ Env.received (codes "\n..c\r\n.\r\n") ∷ [])
    ∷ (Env.received (codes "+OK here\r\nxyz\r\n.\r\n") ∷ [])
    ∷ []

abbrev pub server : Script
server = record {
  offers = all_events ((Env.received (codes "+OK ready\r\n") ∷ []) ∷ pieces);
  sent = [];
}

conversation-Spoken : Spoken 60 conversation pieces
unfolding decimal any_sasl line_of
conversation-Spoken = (
  (refl, omega arith, omega arith),
  (
    (refl, omega arith, omega arith),
    (
      (refl, omega arith, omega arith),
      (
        (refl, omega arith, omega arith),
        (
          (refl, omega arith, omega arith),
          ((refl, omega arith, omega arith), ((refl, omega arith, omega arith), tt)),
        ),
      ),
    ),
  ),
)

remark-Serves :
    (request : Request) (text : Bytes) (bound : ℕ)
    → HasText request.command
    → IsMessage text
    → length text < 1000
    → bound ≤ length text + 6
    → Serves bound (said request (reply text))
remark-Serves request text bound t m small high = record {
  spaced = (refl, tt);
  answers = (t, m);
  small = omega (arith, length-append text crlf);
  high = omega (arith, length-append text crlf);
  chunked = λ part rest cut at more. tt;
}

refusal-Serves :
    (bound : ℕ) → bound ≤ 11 → Serves bound (asking_capa (codes " ") (refusal (codes "what")))
refusal-Serves bound high = record {
  spaced = (refl, tt);
  answers = (omega arith, refl);
  small = omega arith;
  high = omega arith;
  chunked = λ part rest cut at more. tt;
}

maildrop-Serves : ServesAll 6 (maildrop_conversation 9 two_mails)
unfolding decimal numbered Request.from_command Request.add_arg line_of
maildrop-Serves = (
  record {
    spaced = (refl, tt);
    answers = (inl refl, (Some-decimal 2, (refl, tt), Some-decimal 9, (tt, refl)));
    small = omega arith;
    high = omega arith;
    chunked = short-IsChunked NotLineFeed (codes "+OK 2 9\r\n") (omega arith) (omega arith);
  },
  (
    record {
      spaced = (refl, tt);
      answers = (inl refl, (omega arith, refl), omega arith);
      small = omega arith;
      high = omega arith;
      chunked = λ part rest cut at more. tt;
    },
    (
      record {
        spaced = (refl, tt);
        answers = (inl refl, (omega arith, refl), omega arith);
        small = omega arith;
        high = omega arith;
        chunked = λ part rest cut at more. tt;
      },
      tt,
    ),
  ),
)

conversation-Serves : ServesAll 0 (greets manners.greeting ∷ conversation)
unfolding Request.from_command Request.add_arg any_sasl
conversation-Serves = (
  remark-Serves _ (codes "ready") 0 tt (omega arith, refl) (omega arith) (omega arith),
  (
    refusal-Serves _ (omega arith),
    (
      remark-Serves _ (codes "go on") _ tt (omega arith, refl) (omega arith) (omega arith),
      (
        remark-Serves _ (codes "welcome") _ tt (omega arith, refl) (omega arith) (omega arith),
        (refusal-Serves _ (omega arith), maildrop-Serves),
      ),
    ),
  ),
)

script-Opens :
    (fuel : ℕ) (greeting : Reply) (xs : List Exchange) (es : List ReadEvent)
    (ess : List (List ReadEvent))
    → Spoken fuel (greets greeting ∷ xs) (es ∷ ess)
    → ServesAll 0 (greets greeting ∷ xs)
    → Opens
        (with_parser world nom)
        fuel
        greeting
        xs
        (raw (record { offers = all_events (es ∷ ess); sent = [] }))
unfolding TalksOf OnScript raw with_parser
script-Opens fuel greeting xs es ess h serve = record {
  polls = polls es;
  delivers =
      script-piece Anywhere (TalksOf fuel xs) es (all_events ess) [] (answered (greets greeting))
        h.0.0 h.0.1 (script-Talks fuel xs ess [] h.1);
  enough = h.0.2;
  serve = serve;
}

pub server-Opens : Opens (with_parser world nom) 60 manners.greeting conversation (raw server)
server-Opens =
    script-Opens 60 manners.greeting conversation (Env.received (codes "+OK ready\r\n") ∷ []) pieces
      ((refl, omega arith, omega arith), conversation-Spoken) conversation-Serves
