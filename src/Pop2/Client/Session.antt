-- ===== src/Pop2/Client/Session.antt =====
-- The beginning and the end of a session (async-pop2/src/lib.rs): `read_greeting`,
-- `create_client_from_socket`, `apop`, `auth`, `login`, `quit`.
use getemail.Base.{ℕ, true, false, [], Bytes, Option, none, some, codes, if◌then◌else◌}
use mathlib.Core.Option
use getemail.Base.Exec.{
  ok, err, panic, stuck, Exec, Outcome, pure, fail, abort, gets, modify, attempt, ◌>>=◌, ◌>>◌,
}
use getemail.Pop2.Command.{Command}
use getemail.Pop2.Request
use getemail.Pop2.Request.{Request}
use getemail.Pop2.Types.{Text}
use getemail.Pop2.Response.{Response}
use getemail.Pop2.Error.{IoError, ErrorKind, io, unexpected_response}
use getemail.Pop2.Env.{Env}
use getemail.Pop2.Stream
use getemail.Pop2.Stream.{PopStream}
use getemail.Pop2.Stream.Read.{read_response}
use getemail.Pop2.Sasl.{Authenticator, converse, plain_authenticator}
use getemail.Pop2.Client.{
  ClientState, authentication, transaction, Client, Call, inner_mut, check_client_state,
  has_read_greeting, send_request,
}
use getemail.Pop2.Client.Features.{has_auth_mechanism, update_capabilities}
use getemail.Pop2.Client.Commands.{expect_message}

module _ (env : Env) (fuel : ℕ) where
  unfoldable pub note_greeting : Text → Call env Unit
  note_greeting resp = modify (λ c. record c { greeting = some resp; read_greeting = true })

  unfoldable pub store_greeting : Text → Call env Unit
  store_greeting resp = modify (λ c. record c { greeting = some resp })

  unfoldable pub greeted : Response → Call env Text
  unfolding note_greeting
  greeted (Response.message resp) = do note_greeting resp; pure resp
  greeted _ = fail unexpected_response

  -- `assert!(!self.read_greeting)` panics.
  unfoldable pub read_greeting : Call env Text
  unfolding greeted
  read_greeting = do
    again ← gets (λ c. c.read_greeting)
    if again
        then abort
        else do response ← inner_mut (read_response env fuel Command.greet); greeted response

  unfoldable pub initial : PopStream env → Client env
  initial socket = record {
    marked_as_del = [];
    capabilities = [];
    greeting = none;
    read_greeting = false;
    inner = some socket;
    state = authentication;
  }

  -- The client is returned; it is dropped on an error.
  unfoldable pub open_session : Call env Unit
  unfolding read_greeting store_greeting
  open_session = do greeting ← read_greeting; store_greeting greeting; update_capabilities env fuel

  unfoldable pub create_client_from_socket : PopStream env → Outcome ErrorKind Unit × Client env
  unfolding open_session initial
  create_client_from_socket socket = open_session (initial socket)

  -- `new`, and what `connect_plain` and `connect` do once they have a stream.
  unfoldable pub new : env.Socket → Outcome ErrorKind Unit × Client env
  unfolding create_client_from_socket
  new stream = create_client_from_socket (Stream.new env stream)

  unfoldable pub set_state : ClientState → Call env Unit
  set_state state = modify (λ c. record c { state = state })

  unfoldable pub apop : Bytes → Bytes → Call env Text
  unfolding set_state expect_message
  apop name digest = do
    check_client_state authentication
    has_read_greeting
    response ←
        send_request env fuel
          (Request.add_arg (Request.add_arg (Request.from_command Command.apop) name) digest)
    update_capabilities env fuel
    set_state transaction
    expect_message response

  -- The initial response of the mechanism, encoded.
  unfoldable pub with_secret : Option Bytes → Request → Request
  with_secret none request = request
  with_secret (some arg) request = Request.add_arg request (env.base64_encode arg)

  unfoldable pub auth : Authenticator env → Call env Text
  unfolding with_secret set_state expect_message
  auth authenticator = do
    check_client_state authentication
    has_read_greeting
    let request =
        with_secret authenticator.auth
          (Request.add_arg (Request.from_command Command.auth) authenticator.mechanism)
    response ← inner_mut (do
      Stream.encode env request
      converse env authenticator.handle
      read_response env fuel request.command)
    message ← expect_message response
    update_capabilities env fuel
    set_state transaction
    pure message

  -- PLAIN, if the server has it; a failure is dropped.
  unfoldable pub try_plain : Bytes → Bytes → Call env (Option Text)
  unfolding auth
  try_plain user password = do
    offered ← gets (λ c. has_auth_mechanism (codes "PLAIN") c)
    if offered then attempt (auth (plain_authenticator env user password)) else pure none

  unfoldable pub user_pass : Bytes → Bytes → Call env (Text × Text)
  unfolding set_state expect_message
  user_pass user password = do
    has_read_greeting
    user_response ← send_request env fuel (Request.add_arg (Request.from_command Command.user) user)
    pass_response ←
        send_request env fuel (Request.add_arg (Request.from_command Command.pass) password)
    update_capabilities env fuel
    set_state transaction
    user_response_str ← expect_message user_response
    pass_response_str ← expect_message pass_response
    pure (user_response_str, pass_response_str)

  unfoldable pub login : Bytes → Bytes → Call env (Text × Text)
  unfolding try_plain user_pass
  login user password = do
    check_client_state authentication
    authenticated ← try_plain user password
    elim authenticated [
      | some text ↦ pure (text, record { inner = [] })
      | none ↦ user_pass user password
    ]

  -- The state is `update` between two assignments, where nothing can see it.
  unfoldable pub close_session : Call env Unit
  close_session = modify λ c. record c {
    inner = none;
    state = ClientState.none;
    read_greeting = false;
    marked_as_del = [];
    capabilities = [];
  }

  unfoldable pub quit : Call env Text
  unfolding close_session expect_message
  quit = do
    response ← send_request env fuel (Request.from_command Command.quit)
    close_session
    expect_message response

module _ (env : Env) where
  -- What a caller can see of a client, and take out of it.
  unfoldable pub inner : Client env → Option (PopStream env)
  inner self = self.inner

  unfoldable pub into_inner : Client env → Option (PopStream env)
  into_inner self = self.inner

  unfoldable pub get_state : Client env → ClientState
  get_state self = self.state

  unfoldable pub last_activity : Client env → Option ℕ
  last_activity self = Option.map (λ s. s.last_activity) self.inner

  -- A client that is made whole, or the error that it is dropped with.
  returned : Outcome ErrorKind Unit × Client env → Outcome ErrorKind (Client env)
  returned (ok done, client) = ok client
  returned (err e, client) = err e
  returned (panic, client) = panic
  returned (stuck, client) = stuck

  -- `TcpStream::connect`, of which the socket comes, is a parameter.
  unfoldable pub connect_plain :
      {World Addr : Type 0}
      → (Addr → Exec IoError World env.Socket)
      → ℕ
      → Addr
      → World
      → Outcome ErrorKind (Client env) × World
  unfolding returned
  connect_plain connect fuel addr w = elim (connect addr w).0 [
    | ok tcp_stream ↦ (
      returned (create_client_from_socket env fuel (Stream.new env tcp_stream)),
      (connect addr w).1,
    )
    | err e ↦ (err (io e), (connect addr w).1)
    | panic ↦ (panic, (connect addr w).1)
    | stuck ↦ (stuck, (connect addr w).1)
  ]
