-- ===== src/Pop2/Client/Commands.antt =====
-- The commands of the transaction state (async-pop2/src/lib.rs), each with its checks, its request
-- and the response that it expects.
use getemail.Base.{ℕ, [], ◌∷◌, Bytes, Option, none, some}
use getemail.Base.Decimal.{decimal}
use getemail.Base.Exec.{pure, fail, modify, ◌>>=◌, ◌>>◌}
use getemail.Pop2.Command.{Command}
use getemail.Pop2.Request
use getemail.Pop2.Request.{Request}
use getemail.Pop2.Types.{Text}
use getemail.Pop2.Response.{Response, Stat, ListResponse, UidlResponse, Capability}
use getemail.Pop2.Error.{unexpected_response}
use getemail.Pop2.Env.{Env}
use getemail.Pop2.Client.{Call, send_request, check_deleted}
use getemail.Pop2.Client.Features.{check_capability}

module _ {env : Env} where
  unfoldable pub expect_message : Response → Call env Text
  expect_message (Response.message resp) = pure resp
  expect_message _ = fail unexpected_response

  unfoldable pub expect_bytes : Response → Call env Bytes
  expect_bytes (Response.bytes resp) = pure resp
  expect_bytes _ = fail unexpected_response

  unfoldable pub expect_uidl : Response → Call env UidlResponse
  expect_uidl (Response.uidl resp) = pure resp
  expect_uidl _ = fail unexpected_response

  unfoldable pub expect_stat : Response → Call env Stat
  expect_stat (Response.stat resp) = pure resp
  expect_stat _ = fail unexpected_response

  unfoldable pub expect_list : Response → Call env ListResponse
  expect_list (Response.list resp) = pure (ListResponse.multiple resp)
  expect_list (Response.stat resp) = pure (ListResponse.single resp)
  expect_list _ = fail unexpected_response

  unfoldable pub check_number : Option ℕ → Call env Unit
  check_number none = pure tt
  check_number (some msg_number) = check_deleted msg_number

-- A request whose argument, if there is one, is a message number.
unfoldable pub numbered : Command → Option ℕ → Request
numbered command none = Request.from_command command
numbered command (some number) = Request.add_arg (Request.from_command command) (decimal number)

module _ (env : Env) (fuel : ℕ) where
  unfoldable pub noop : Call env Unit
  noop = do send_request env fuel (Request.from_command Command.noop); pure tt

  unfoldable pub uidl : Option ℕ → Call env UidlResponse
  unfolding check_number numbered expect_uidl
  uidl msg_number = do
    check_capability (Capability.uidl ∷ [])
    check_number msg_number
    response ← send_request env fuel (numbered Command.uidl msg_number)
    expect_uidl response

  unfoldable pub top : ℕ → ℕ → Call env Bytes
  unfolding numbered expect_bytes
  top msg_number lines = do
    check_deleted msg_number
    check_capability (Capability.top ∷ [])
    response ←
        send_request env fuel
          (Request.add_arg (numbered Command.top (some msg_number)) (decimal lines))
    expect_bytes response

  unfoldable pub dele : ℕ → Call env Text
  unfolding numbered expect_message
  dele msg_number = do
    check_deleted msg_number
    response ← send_request env fuel (numbered Command.dele (some msg_number))
    expect_message response

  unfoldable pub clear_marks : Call env Unit
  clear_marks = modify (λ c. record c { marked_as_del = [] })

  unfoldable pub rset : Call env Text
  unfolding clear_marks expect_message
  rset = do
    response ← send_request env fuel (Request.from_command Command.rset)
    clear_marks
    expect_message response

  unfoldable pub retr : ℕ → Call env Bytes
  unfolding numbered expect_bytes
  retr msg_number = do
    check_deleted msg_number
    response ← send_request env fuel (numbered Command.retr (some msg_number))
    expect_bytes response

  unfoldable pub list : Option ℕ → Call env ListResponse
  unfolding check_number numbered expect_list
  list msg_number = do
    check_number msg_number
    response ← send_request env fuel (numbered Command.list msg_number)
    expect_list response

  unfoldable pub stat : Call env Stat
  unfolding expect_stat
  stat = do
    response ← send_request env fuel (Request.from_command Command.stat)
    expect_stat response
