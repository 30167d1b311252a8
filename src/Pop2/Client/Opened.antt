-- ===== src/Pop2/Client/Opened.antt =====
-- A client for a fresh socket, whose server greets and is asked for its capabilities.
use getemail.Base.{ℕ, ◌≡◌, ◌<◌, refl, true, List, [], ◌∷◌, Bytes, arith, some, inr}
use getemail.Base.Exec.{ok}
use getemail.Pop2.Command
use getemail.Pop2.Request
use getemail.Pop2.Types.{Text}
use getemail.Pop2.Response.{Response}
use getemail.Pop2.Env.{Env, LawfulBuffers}
use getemail.Pop2.Queue
use getemail.Pop2.Buffer
use getemail.Pop2.Buffer.Bounds.{new-IsValid}
use getemail.Pop2.Stream
use getemail.Pop2.Stream.{PopStream}
use getemail.Pop2.Stream.Read.{read_response}
use getemail.Pop2.Stream.Progress.{Anywhere, Delivers, IsIdle}
use getemail.Pop2.Client.{Client, authentication, state_eq, inner_mut, run_on}
use getemail.Pop2.Client.Features.{update_capabilities}
use getemail.Pop2.Client.Session
use getemail.Pop2.Client.Session.{
  note_greeting, store_greeting, greeted, read_greeting, initial, open_session,
  create_client_from_socket,
}
use getemail.Pop2.Client.Talks.{Exchange, ServesAll, Talks, Talking, answered}
use getemail.Pop2.Client.Greeted.{Reply, asking_capa, said, learnt, update_capabilities-Talking}
use getemail.Pop2.Nom.{Nom}
use getemail.Pop2.Nom.Laws.{LawfulPrimitives, LawfulCombinators}
use getemail.Pop2.Parser.{with_parser}
use getemail.Pop2.Parser.Rfc1939.{new_text}
use getemail.Pop2.Parser.Replies.{lawful}
use getemail.Pop2.Parser.Answers.{Answer, remark}
use getemail.Pop2.Parser.Answers.Reads.{read_response-written}

-- The greeting is the answer to no request.
abbrev pub greets : Reply → Exchange
greets greeting = said (Request.from_command Command.greet) greeting

-- The server sends its greeting, in any pieces, and then answers the requests.
pub record Opens (env : Env) (fuel : ℕ) (greeting : Reply) (xs : List Exchange)
    (socket : env.Socket) : Type 0 where
  pub polls : ℕ
  pub delivers : Delivers env Anywhere (Talks env fuel xs) polls socket (answered (greets greeting))
  pub enough : polls < fuel
  pub serve : ServesAll 0 (greets greeting ∷ xs)

pub new-IsIdle :
    (env : Env) → LawfulBuffers env → (socket : env.Socket) → IsIdle env 0 (Stream.new env socket)
unfolding Stream.new Queue.new
new-IsIdle env laws socket = record {
  valid = new-IsValid env laws;
  no_bytes = unfold Buffer.new in refl;
  no_command = refl;
  needs = omega arith;
}

module _ (nom : Nom) (prims : LawfulPrimitives nom) (combs : LawfulCombinators nom) (env : Env)
    (laws : LawfulBuffers env) (fuel : ℕ) where
  -- The client behind the greeting, over a stream.
  abbrev greeted_by : Text → PopStream (with_parser env nom) → Client (with_parser env nom)
  greeted_by text s = record (initial (with_parser env nom) fuel s) {
    greeting = some text;
    read_greeting = true;
  }

  open_session-runs :
      (text : Text) (s s' : PopStream (with_parser env nom)) (c : Client (with_parser env nom))
      → read_response (with_parser env nom) fuel Command.greet s ≡ (ok (Response.message text), s')
      → update_capabilities (with_parser env nom) fuel (greeted_by text s') ≡ (ok tt, c)
      → create_client_from_socket (with_parser env nom) fuel s ≡ (ok tt, c)
  unfolding create_client_from_socket open_session read_greeting greeted note_greeting
      store_greeting initial inner_mut run_on state_eq
  open_session-runs text s s' c read updated = rw (read, updated) refl

  -- The client is in the state Authentication and knows what the server has answered to CAPA.
  pub new-Talking :
      (greeting : Reply) (spaces : Bytes) (a : Answer) (xs : List Exchange)
      (socket : (with_parser env nom).Socket)
      → Opens (with_parser env nom) fuel greeting (asking_capa spaces a ∷ xs) socket
      → (c : Client (with_parser env nom)) × (b : ℕ) × (Session.new
            (with_parser env nom)
            fuel
            socket
          ≡ (ok tt, c))
        × (c.state ≡ authentication)
        × (c.read_greeting ≡ true)
        × (c.marked_as_del ≡ [])
        × (c.capabilities ≡ learnt a [])
        × Talking (with_parser env nom) fuel b xs c
  unfolding Session.new initial Request.from_command Stream.new
  new-Talking greeting spaces a xs socket o =
      let fresh = Stream.new (with_parser env nom) socket in
      let first = o.serve.0 in
      let (s, read, idle, talks) =
        read_response-written nom prims combs env laws Command.greet (remark greeting.text)
          greeting.spaces 0 (Talks (with_parser env nom) fuel (asking_capa spaces a ∷ xs)) o.polls
          fuel fresh first.spaced first.answers first.small first.high
          (new-IsIdle (with_parser env nom) (lawful env laws nom prims combs) socket) first.chunked
          o.delivers o.enough in
      let (s', updated, talking) =
        update_capabilities-Talking nom prims combs env laws fuel spaces a xs _
          (greeted_by (new_text greeting.text) s)
          (record { stream = s; connected = refl; idle = idle; talks = talks; serve = o.serve.1 })
          (inr refl) in
      (
        _,
        _,
        open_session-runs (new_text greeting.text) fresh s _ read updated,
        refl,
        refl,
        refl,
        refl,
        talking,
      )
