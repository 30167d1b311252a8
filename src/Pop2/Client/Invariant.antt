-- ===== src/Pop2/Client/Invariant.antt =====
-- What holds of a client after any sequence of calls of its public methods.
use getemail.Base.{
  ℕ, ◌≡◌, refl, ◌≢◌, ◌⊎◌, inl, inr, Bool, false, List, [], ◌∷◌, Option, none, some, arith,
}
use getemail.Base.Exec.{ok, err, continue_reaches}
use getemail.Pop2.Request.{Request}
use getemail.Pop2.Error.{ErrorKind, not_connected, incorrect_state_for_command, feature_unsupported}
use getemail.Pop2.Env.{Env}
use getemail.Pop2.Response.{Capability}
use getemail.Pop2.Client.Features
use getemail.Pop2.Client.Features.{check_capability, has_capability}
use getemail.Pop2.Stream.{PopStream}
use getemail.Pop2.Types.{Text}
use getemail.Pop2.Client
use getemail.Pop2.Client.{ClientState, authentication, transaction, Client, Call, sort}
use getemail.Pop2.Client.Commands
use getemail.Pop2.Client.Session
use getemail.Pop2.Client.Session.{initial, create_client_from_socket}
use getemail.Pop2.Client.Calls.{
  Op, noop, uidl, top, dele, rset, retr, list, stat, capa, apop, auth, login, quit, kind, command,
  entering, perform, run, dropped_state,
}
use getemail.Pop2.Client.Keeps.{IsStable, Keeps-send_request}
use getemail.Pop2.Client.Kept.{
  perform_command, perform_entering, Keeps-open_session, Keeps-expect_message,
}

-- Connected, before or after the login.
pub record IsOpen {env : Env} (c : Client env) : Type 0 where
  pub state_open : (c.state ≡ authentication) ⊎ (c.state ≡ transaction)
  pub socket : PopStream env
  pub connected : c.inner ≡ some socket
  pub unmarked : c.marked_as_del ≡ []

-- As `quit` leaves it.
pub record IsClosed {env : Env} (c : Client env) : Type 0 where
  pub state_none : c.state ≡ ClientState.none
  pub disconnected : c.inner ≡ none
  pub unmarked : c.marked_as_del ≡ []
  pub no_capabilities : c.capabilities ≡ []
  pub not_greeted : c.read_greeting ≡ false

module _ {env : Env} where
  IsOpen-stable : IsStable {env = env} IsOpen
  unfolding sort
  IsOpen-stable = record {
    inner = λ c s s' e h. record {
      state_open = h.state_open;
      socket = s';
      connected = refl;
      unmarked = h.unmarked;
    };
    capabilities = λ c cs h. record {
      state_open = h.state_open;
      socket = h.socket;
      connected = h.connected;
      unmarked = h.unmarked;
    };
    sorted = λ c h. record {
      state_open = h.state_open;
      socket = h.socket;
      connected = h.connected;
      unmarked = rw (h.unmarked, sort);
    };
    cleared = λ c h. record {
      state_open = h.state_open;
      socket = h.socket;
      connected = h.connected;
      unmarked = refl;
    };
  }

  abbrev pub IsSession : Client env → Type 0
  IsSession c = IsOpen c ⊎ IsClosed c

Kind-cases : {env : Env} (op : Op env) → op ≢ quit → (kind op ≡ command) ⊎ (kind op ≡ entering)
Kind-cases quit ne = absurd (ne refl)
Kind-cases op ne = ground arith

module _ (env : Env) (fuel : ℕ) where
  enters_transaction : (c : Client env) → IsOpen c → IsOpen (record c { state = transaction })
  enters_transaction c h = record {
    state_open = inr refl;
    socket = h.socket;
    connected = h.connected;
    unmarked = h.unmarked;
  }

  initial-IsOpen : (s : PopStream env) → IsOpen (initial env fuel s)
  unfolding initial
  initial-IsOpen s = record { state_open = inl refl; socket = s; connected = refl; unmarked = refl }

  quit-IsSession : (c : Client env) → IsOpen c → IsSession (perform env fuel quit c).1
  unfolding perform Session.quit
  quit-IsSession c h = rw (dropped_state (Session.quit env fuel) c) (
      continue_reaches IsOpen IsSession (Client.send_request env fuel _ c) _
        ((Keeps-send_request IsOpen-stable fuel _).at c h) (λ s o. inl o)
        (λ response s o. inr (
          (Keeps-expect_message {P = IsClosed} response).at _ (record {
            state_none = refl;
            disconnected = refl;
            unmarked = refl;
            no_capabilities = refl;
            not_greeted = refl;
          }))))

-- What a closed client answers.
abbrev pub refusal : {env : Env} → Op env → ErrorKind
refusal (uidl n) = feature_unsupported
refusal (top n lines) = feature_unsupported
refusal (apop name digest) = incorrect_state_for_command
refusal (auth a) = incorrect_state_for_command
refusal (login user password) = incorrect_state_for_command
refusal _ = not_connected

module _ (env : Env) (fuel : ℕ) where
  send_request-closed :
      (r : Request) (c : Client env)
      → IsClosed c
      → Client.send_request env fuel r c ≡ (err not_connected, c)
  unfolding Client.send_request
  send_request-closed r c h = ground (arith, h.disconnected)

  -- No message is ever seen as deleted where none is marked.
  pub is_deleted_unmarked :
      (n : ℕ) (c : Client env) → c.marked_as_del ≡ [] → Client.is_deleted n c ≡ (ok false, c)
  unfolding Client.is_deleted
  is_deleted_unmarked n c h = ground arith

  check_deleted_unmarked :
      (n : ℕ) (c : Client env) → c.marked_as_del ≡ [] → Client.check_deleted n c ≡ (ok tt, c)
  unfolding Client.check_deleted
  check_deleted_unmarked n c h = rw (is_deleted_unmarked n c h)

  missing_capability :
      (cap : Capability) (c : Client env)
      → IsClosed c
      → check_capability (cap ∷ []) c ≡ (err feature_unsupported, c)
  unfolding check_capability
  missing_capability cap c h = rw (h.no_capabilities, check_capability, has_capability)

  wrong_state :
      (c : Client env)
      → IsClosed c
      → Client.check_client_state authentication c ≡ (err incorrect_state_for_command, c)
  unfolding Client.check_client_state
  wrong_state c h = ground (arith, h.state_none)

  -- A closed client refuses every call but `is_deleted`, with nothing sent and nothing changed.
  pub perform-refusal :
      (op : Op env) (c : Client env)
      → IsClosed c
      → ((n : ℕ) → op ≢ Op.is_deleted n)
      → perform env fuel op c ≡ (err (refusal op), c)
  unfolding perform Commands.noop Commands.uidl Commands.top Commands.dele Commands.rset
      Commands.retr Commands.list Commands.stat Features.capa Session.apop Session.auth
      Session.login Session.quit
  perform-refusal noop c h ne = rw (send_request-closed _ c h)
  perform-refusal (uidl n) c h ne = rw (missing_capability Capability.uidl c h)
  perform-refusal (top n lines) c h ne =
      rw (check_deleted_unmarked n c h.unmarked, missing_capability Capability.top c h)
  perform-refusal (dele n) c h ne =
      rw (check_deleted_unmarked n c h.unmarked, send_request-closed _ c h)
  perform-refusal rset c h ne = rw (send_request-closed _ c h)
  perform-refusal (retr n) c h ne =
      rw (check_deleted_unmarked n c h.unmarked, send_request-closed _ c h)
  perform-refusal (list none) c h ne = rw (send_request-closed _ c h)
  perform-refusal (list (some n)) c h ne =
      rw (check_deleted_unmarked n c h.unmarked, send_request-closed _ c h)
  perform-refusal stat c h ne = rw (send_request-closed _ c h)
  perform-refusal capa c h ne = rw (send_request-closed _ c h)
  perform-refusal (Op.is_deleted n) c h ne = absurd (ne n refl)
  perform-refusal (Op.send_request r) c h ne = rw (send_request-closed r c h)
  perform-refusal (apop name digest) c h ne = rw (wrong_state c h)
  perform-refusal (auth a) c h ne = rw (wrong_state c h)
  perform-refusal (login user password) c h ne = rw (wrong_state c h)
  perform-refusal quit c h ne = rw (send_request-closed _ c h)

  perform-IsSession :
      (op : Op env) (c : Client env) → IsSession c → IsSession (perform env fuel op c).1
  perform-IsSession quit c (inl h) = quit-IsSession env fuel c h
  perform-IsSession (Op.is_deleted n) c (inr h) =
      unfold perform in rw (is_deleted_unmarked n c h.unmarked) (inr h)
  perform-IsSession op c (inl h) = inl (elim (Kind-cases op (λ e. cc)) [
    | inl k ↦ (perform_command IsOpen-stable fuel op k).at c h
    | inr k ↦ (perform_entering IsOpen-stable fuel (enters_transaction env fuel) op k).at c h
  ])
  perform-IsSession op c (inr h) = rw (perform-refusal op c h (λ n e. cc)) (inr h)

  run-IsSession :
      (c : Client env) (ops : List (Op env)) → IsSession c → IsSession (run env fuel c ops)
  unfolding run
  run-IsSession c [] h = h
  run-IsSession c (op ∷ ops) h =
      run-IsSession (perform env fuel op c).1 ops (perform-IsSession op c h)

  created-IsSession : (s : PopStream env) → IsSession (create_client_from_socket env fuel s).1
  unfolding create_client_from_socket
  created-IsSession s =
      inl ((Keeps-open_session IsOpen-stable fuel greets).at _ (initial-IsOpen env fuel s))
    where
      greets :
          (c : Client env) (t : Option Text) (b : Bool)
          → IsOpen c
          → IsOpen (record c { greeting = t; read_greeting = b })
      greets c t b h = record {
        state_open = h.state_open;
        socket = h.socket;
        connected = h.connected;
        unmarked = h.unmarked;
      }

  -- After any calls the client is connected and in the authentication or transaction state, or
  -- disconnected and in the state that `quit` leaves; the state `update` is never seen.
  pub IsSession-states :
      (s : PopStream env) (ops : List (Op env))
      → IsSession (run env fuel (create_client_from_socket env fuel s).1 ops)
  IsSession-states s ops = run-IsSession _ ops (created-IsSession s)

  unmarked_session : (c : Client env) → IsSession c → c.marked_as_del ≡ []
  unmarked_session c (inl h) = h.unmarked
  unmarked_session c (inr h) = h.unmarked

  -- Whatever was called before, `dele` of the same message included, no message counts as deleted.
  pub never_deleted :
      (s : PopStream env) (ops : List (Op env)) (n : ℕ)
      → let c = run env fuel (create_client_from_socket env fuel s).1 ops in
        Client.is_deleted n c ≡ (ok false, c)
  never_deleted s ops n = is_deleted_unmarked n _ (unmarked_session _ (IsSession-states s ops))
