-- ===== src/Pop2/Sasl.antt =====
-- async-pop2/src/sasl.rs: the mechanisms PLAIN and XOAUTH2, and the conversation of a mechanism with
-- the server through a `Communicator`.
use getemail.Base.{ℕ, List, [], ◌∷◌, ◌++◌, Bytes, Option, some, codes}
use getemail.Base.Exec.{ok, Exec, pure, fail, modify, ◌>>=◌, ◌>>◌}
use getemail.Pop2.Command.{Command, base64}
use getemail.Pop2.Request
use getemail.Pop2.Request.{Request}
use getemail.Pop2.Types.{Text}
use getemail.Pop2.Response.{Response}
use getemail.Pop2.Error.{ErrorKind, unexpected_response}
use getemail.Pop2.Env.{Env}
use getemail.Pop2.Stream
use getemail.Pop2.Stream.{PopStream}
use getemail.Pop2.Stream.Read.{read_response}

-- The stream is borrowed: it is handed back at the end.
pub record Communicator (env : Env) : Type 0 where
  pub stream : PopStream env
  pub requests : List Request

abbrev pub Conversation : Env → Type 0 → Type 0
Conversation env A = Exec ErrorKind (Communicator env) A

-- A value of a type that implements `Authenticator`.
pub record Authenticator (env : Env) : Type 0 where
  pub mechanism : Bytes
  pub auth : Option Bytes
  pub handle : Conversation env Unit

-- `format!("\x00{}\x00{}", username, password)`
unfoldable pub plain_secret : Bytes → Bytes → Bytes
plain_secret username password = 0 ∷ (username ++ (0 ∷ password))

-- `format!("user={}\x01auth=Bearer {}\x01\x01", user, access_token)`
unfoldable pub oauth2_secret : Bytes → Bytes → Bytes
oauth2_secret user access_token =
    codes "user=" ++ (user ++ (1 ∷ (codes "auth=Bearer " ++ (access_token ++ (1 ∷ 1 ∷ [])))))

-- `PlainAuthenticator` and `OAuth2Authenticator`, with the default `handle`.
unfoldable pub plain_authenticator : (env : Env) → Bytes → Bytes → Authenticator env
unfolding plain_secret
plain_authenticator env username password = record {
  mechanism = codes "PLAIN";
  auth = some (plain_secret username password);
  handle = pure tt;
}

unfoldable pub oauth2_authenticator : (env : Env) → Bytes → Bytes → Authenticator env
unfolding oauth2_secret
oauth2_authenticator env user access_token = record {
  mechanism = codes "XOAUTH2";
  auth = some (oauth2_secret user access_token);
  handle = pure tt;
}

module _ (env : Env) where
  -- `Communicator::new`, and the end of its borrow.
  unfoldable pub converse : Conversation env Unit → Stream.Method env Unit
  converse m stream = let (r, c) = m (record { stream = stream; requests = [] }) in (r, c.stream)

  on_stream : {A : Type 0} → Stream.Method env A → Conversation env A
  on_stream m c = let (r, stream) = m c.stream in (r, record c { stream = stream })

  unfoldable pub send : Bytes → Conversation env Unit
  unfolding on_stream
  send secret = do
    let request = Request.from_command (base64 secret)
    on_stream (Stream.encode env request)
    modify (λ c. record c { requests = c.requests ++ request ∷ [] })

  -- `requests.pop_front()`, or an empty request.
  next_command : List Request → Command × List Request
  next_command [] = (base64 [], [])
  next_command (request ∷ requests) = (request.command, requests)

  pop_request : Conversation env Command
  unfolding next_command
  pop_request c =
      let (command, requests) = next_command c.requests in
      (ok command, record c { requests = requests })

  expect_challenge : Response → Conversation env Text
  expect_challenge (Response.challenge challenge) = pure challenge
  expect_challenge _ = fail unexpected_response

  unfoldable pub next_challenge : ℕ → Conversation env Text
  unfolding on_stream pop_request expect_challenge
  next_challenge fuel = do
    command ← pop_request
    response ← on_stream (read_response env fuel command)
    expect_challenge response

  unfoldable pub stop : Conversation env Unit
  unfolding on_stream
  stop = on_stream (Stream.send_bytes env (codes "*"))
