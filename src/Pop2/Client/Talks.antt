-- ===== src/Pop2/Client/Talks.antt =====
-- A whole conversation: requests of the client, each with the answer that the server gives to it.
use getemail.Base.{max, ◌∙◌, ℕ, ◌≡◌, ◌≤◌, ◌<◌, refl, List, [], ◌∷◌, Bytes, some, length}
use getemail.Pop2.Request
use getemail.Pop2.Request.{Request}
use getemail.Pop2.Env.{Env, LawfulBuffers}
use getemail.Pop2.Buffer.{max_size}
use getemail.Pop2.Stream.{PopStream}
use getemail.Pop2.Stream.Progress.{Delivers, IsIdle}
use getemail.Pop2.Stream.Responds.{replied}
use getemail.Pop2.Client.{Client, send_request}
use getemail.Pop2.Client.Answered.{Sends, IsOpen, send_request-written}
use getemail.Pop2.Nom.{Nom}
use getemail.Pop2.Nom.Laws.{LawfulPrimitives, LawfulCombinators, is_space}
use getemail.Pop2.Parser.{with_parser}
use getemail.Pop2.Parser.Primitives.{All}
use getemail.Pop2.Parser.Answers.{Answer, written, value, Fits}
use getemail.Pop2.Parser.Answers.Asks.{asked, MayEnd}
use getemail.Pop2.Parser.Replies.{IsChunked}

-- A request, and its answer with the spaces behind the status.
pub record Exchange : Type 0 where
  pub request : Request
  pub spaces : Bytes
  pub answer : Answer

abbrev pub answered : Exchange → Bytes
answered x = written x.spaces x.answer

-- What `decode_needs` is at most behind the answer.
abbrev pub bound_after : ℕ → Exchange → ℕ
bound_after bound x = max bound (asked x.spaces x.answer)

-- The answer is one to the request, fits into the buffer, and is not shorter than `bound`. If it may not be cut in
-- front of a line feed, the chunks of the buffer do not cut it there.
pub record Serves (bound : ℕ) (x : Exchange) : Type 0 where
  pub spaced : All is_space x.spaces
  pub answers : Fits x.request.command x.answer
  pub small : length (answered x) ≤ max_size
  pub high : bound ≤ length (answered x)
  pub chunked : IsChunked (MayEnd x.answer) (answered x)

-- Each answer serves its request, and none is shorter than what the parser has asked for before, which
-- the stream still waits for.
abbrev pub ServesAll : ℕ → List Exchange → Type 0
ServesAll bound [] = Unit {0}
ServesAll bound (x ∷ xs) = Serves bound x × ServesAll (bound_after bound x) xs

module _ (env : Env) (fuel : ℕ) where
  -- The server takes each request and then sends its answer, in any pieces that end where they may, within fewer than
  -- `fuel` polls; the answers come in the order of the requests, and none before its request.
  abbrev pub Talks : List Exchange → env.Socket → Type 0
  Talks [] socket = Unit {0}
  Talks (x ∷ xs) socket =
      (after : env.Socket) × (n : ℕ) × Sends env (Request.display env.base64_encode x.request)
        socket after
      × Delivers env (MayEnd x.answer) (Talks xs) n after (answered x)
      × (n < fuel)

  -- A client that is connected to such a server, with an idle stream.
  pub record Talking (bound : ℕ) (xs : List Exchange) (c : Client env) : Type 0 where
    pub stream : PopStream env
    pub connected : c.inner ≡ some stream
    pub idle : IsIdle env bound stream
    pub talks : Talks xs stream.stream
    pub serve : ServesAll bound xs

module _ (nom : Nom) (prims : LawfulPrimitives nom) (combs : LawfulCombinators nom) (env : Env)
    (laws : LawfulBuffers env) (fuel : ℕ) where
  -- One request is answered, and the conversation goes on with the rest.
  pub send_request-Talking :
      (x : Exchange) (xs : List Exchange) (bound : ℕ) (c : Client (with_parser env nom))
      → Talking (with_parser env nom) fuel bound (x ∷ xs) c
      → IsOpen c.state
      → (s : PopStream (with_parser env nom)) × (send_request (with_parser env nom) fuel x.request c
          ≡ (replied (value x.answer), record c { inner = some s }))
        × Talking (with_parser env nom) fuel (bound_after bound x) xs (record c { inner = some s })
  send_request-Talking x xs bound c t open_state =
      let (after, n, sends, delivers, enough) = t.talks in
      let serves = t.serve.0 in
      let (s, sent, idle, talks) =
        send_request-written nom prims combs env laws x.request x.answer x.spaces bound
          (Talks (with_parser env nom) fuel xs) n fuel c t.stream after t.connected open_state
          serves.spaced serves.answers serves.small serves.high t.idle sends serves.chunked delivers
          enough in
      (
        s,
        sent,
        record { stream = s; connected = refl; idle = idle; talks = talks; serve = t.serve.1 },
      )

  -- What the client keeps besides the stream does not matter.
  pub Talking-same :
      (xs : List Exchange) (bound : ℕ) (c c' : Client (with_parser env nom))
      → c'.inner ≡ c.inner
      → Talking (with_parser env nom) fuel bound xs c
      → Talking (with_parser env nom) fuel bound xs c'
  Talking-same xs bound c c' e t = record {
    stream = t.stream;
    connected = e ∙ t.connected;
    idle = t.idle;
    talks = t.talks;
    serve = t.serve;
  }
