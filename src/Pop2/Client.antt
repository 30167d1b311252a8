-- ===== src/Pop2/Client.antt =====
-- `Client` of async-pop2/src/lib.rs: the state of a session, the checks that its methods begin with,
-- and `send_request`. A method is a function of the client; `fuel` bounds the loops that read.
pub mod Features
pub mod Commands
pub mod Session
pub mod Keeps
pub mod Kept
pub mod Calls
pub mod Invariant
pub mod Transitions
pub mod Answered
pub mod Talks
pub mod Greeted
pub mod LoggedIn
pub mod Opened
use getemail.Base.{
  ℕ, Bool, true, false, ◌||◌, not, List, [], ◌∷◌, Bytes, Option, ◌==◌, if◌then◌else◌, leb,
}
use getemail.Base.Exec.{Outcome, ok, err, panic, Exec, pure, fail, gets, modify, ◌>>=◌, ◌>>◌}
use getemail.Pop2.Command.{Command}
use getemail.Pop2.Request
use getemail.Pop2.Request.{Request}
use getemail.Pop2.Types.{Text}
use getemail.Pop2.Response.{Response, Capabilities}
use getemail.Pop2.Error.{
  ErrorKind, not_connected, should_not_be_connected, incorrect_state_for_command,
  message_is_deleted, server_failed_to_greet,
}
use getemail.Pop2.Env.{Env}
use getemail.Pop2.Stream
use getemail.Pop2.Stream.{PopStream}
use getemail.Pop2.Stream.Read.{read_response}

pub data ClientState : Type 0 where
  authentication transaction update none : ClientState

-- The derived `PartialEq`.
unfoldable pub state_eq : ClientState → ClientState → Bool
state_eq authentication authentication = true
state_eq transaction transaction = true
state_eq update update = true
state_eq none none = true
state_eq _ _ = false

pub record Client (env : Env) : Type 0 where
  pub inner : Option (PopStream env)
  pub capabilities : Capabilities
  pub marked_as_del : List ℕ
  pub greeting : Option Text
  pub read_greeting : Bool
  pub state : ClientState

abbrev pub Call : Env → Type 0 → Type 0
Call env A = Exec ErrorKind (Client env) A

-- `marked_as_del.sort()`, and `binary_search`, which finds what a sorted vector holds.
insert_sorted : ℕ → List ℕ → List ℕ
insert_sorted n [] = n ∷ []
insert_sorted n (m ∷ ms) = if leb n m then n ∷ m ∷ ms else m ∷ insert_sorted n ms

unfoldable pub sort : List ℕ → List ℕ
unfolding insert_sorted
sort [] = []
sort (n ∷ ns) = insert_sorted n (sort ns)

unfoldable pub binary_search : List ℕ → ℕ → Bool
binary_search [] n = false
binary_search (m ∷ ms) n = m == n || binary_search ms n

module _ {env : Env} where
  unfoldable pub run_on : {A : Type 0} → Option (PopStream env) → Stream.Method env A → Call env A
  unfolding state_eq
  run_on Option.none m c = (err not_connected, c)
  run_on (Option.some socket) m c =
      if state_eq c.state transaction || state_eq c.state authentication
      then (let (r, socket') = m socket in (r, record c { inner = Option.some socket' }))
      else (err should_not_be_connected, c)

  -- What is done with the socket that `inner_mut` hands out.
  unfoldable pub inner_mut : {A : Type 0} → Stream.Method env A → Call env A
  unfolding run_on
  inner_mut m c = run_on c.inner m c

  unfoldable pub check_client_state : ClientState → Call env Unit
  unfolding state_eq
  check_client_state state c =
      if not (state_eq c.state state) then fail incorrect_state_for_command c else (ok tt, c)

  unfoldable pub has_read_greeting : Call env Unit
  has_read_greeting c = if not c.read_greeting then fail server_failed_to_greet c else (ok tt, c)

  unfoldable pub is_deleted : ℕ → Call env Bool
  unfolding sort binary_search
  is_deleted msg_number c =
      let sorted = sort c.marked_as_del in
      (ok (binary_search sorted msg_number), record c { marked_as_del = sorted })

  unfoldable pub check_deleted : ℕ → Call env Unit
  check_deleted msg_number = do
    deleted ← is_deleted msg_number
    if deleted then fail message_is_deleted else pure tt

unfoldable pub send_request : (env : Env) → ℕ → Request → Call env Response
unfolding inner_mut
send_request env fuel request =
    inner_mut (do Stream.encode env request; read_response env fuel request.command)
