-- ===== src/Tests/Client.antt =====
-- The client in the scripted environment.
use getemail.Pop2.Response.{Capability}
use getemail.Pop2.Client.Features.{check_capability}
use getemail.Pop2.Client.Features.Offered.{Offers, check_capability-Offers}
use getemail.Base.{◌⊎◌, ◌≡◌, refl, List, [], ◌∷◌, false, codes, none}
use getemail.Base.Exec.{ok, err}
use getemail.Pop2.Env
use getemail.Pop2.Error.{not_connected, feature_unsupported}
use getemail.Pop2.Stream
use getemail.Pop2.Stream.{PopStream}
use getemail.Pop2.Client
use getemail.Pop2.Client.{Client, ClientState, authentication, transaction}
use getemail.Pop2.Client.Calls.{Op, login, dele, perform, run, kind}
use getemail.Pop2.Client.Session.{create_client_from_socket}
use getemail.Pop2.Client.Invariant.{
  IsSession, IsClosed, perform-refusal, IsSession-states, never_deleted,
}
use getemail.Pop2.Client.Transitions.{Allowed, perform-Allowed}
use getemail.Tests.World.{Script, world}

-- A server that greets, refuses CAPA, and agrees to four commands.
abbrev server : Script
server = record {
  offers =
      Env.received (codes "+OK hello\n")
      ∷ Env.received (codes "-ERR no\n")
      ∷ Env.received (codes "+OK\n")
      ∷ Env.received (codes "+OK\n")
      ∷ Env.received (codes "-ERR no\n")
      ∷ Env.received (codes "+OK gone\n")
      ∷ [];
  sent = [];
}

abbrev connection : PopStream world
connection = Stream.new world server

abbrev session : List (Op world)
session = login (codes "me") (codes "secret") ∷ dele 1 ∷ []

abbrev closed : Client world
closed = record {
  inner = none;
  capabilities = [];
  marked_as_del = [];
  greeting = none;
  read_greeting = false;
  state = ClientState.none;
}

perform-Allowed_example :
    Allowed
      (kind {env = world} (login (codes "me") (codes "secret")))
      ClientState.none
      (perform world 9 (login (codes "me") (codes "secret")) closed).1.state
perform-Allowed_example = perform-Allowed world 9 (login (codes "me") (codes "secret")) closed

closed-IsClosed : IsClosed closed
closed-IsClosed = record {
  state_none = refl;
  disconnected = refl;
  unmarked = refl;
  no_capabilities = refl;
  not_greeted = refl;
}

perform-refusal_example : perform world 9 (dele 1) closed ≡ (err not_connected, closed)
perform-refusal_example = perform-refusal world 9 (dele 1) closed closed-IsClosed (λ n e. cc)

IsSession-states_example :
    IsSession (run world 9 (create_client_from_socket world 9 connection).1 session)
IsSession-states_example = IsSession-states world 9 connection session

never_deleted_example :
    let c = run world 9 (create_client_from_socket world 9 connection).1 session in
    Client.is_deleted 1 c ≡ (ok false, c)
never_deleted_example = never_deleted world 9 connection session 1

check_capability-Offers_example :
    (Offers closed.capabilities Capability.uidl
      × (check_capability (Capability.uidl ∷ []) closed ≡ (ok tt, closed)))
    ⊎ ((¬ Offers closed.capabilities Capability.uidl)
        × (check_capability (Capability.uidl ∷ []) closed ≡ (err feature_unsupported, closed)))
check_capability-Offers_example = check_capability-Offers Capability.uidl closed
