-- ===== src/Pop2/Client/Greeted.antt =====
-- The beginning of a session, from the greeting of the server to the log-in, against a server that answers after
-- RFC 1939 and RFC 2449.
use getemail.Base.{ℕ, ◌≡◌, refl, inr, true, List, ◌∷◌, Bytes, some, Option, arith}
use getemail.Base.Exec.{ok, pure, succeeded, continue, ◌>>◌}
use getemail.Pop2.Command
use getemail.Pop2.Request
use getemail.Pop2.Request.{Request}
use getemail.Pop2.Types.{Text}
use getemail.Pop2.Response.{Response, Capabilities}
use getemail.Pop2.Env.{Env, LawfulBuffers}
use getemail.Pop2.Stream
use getemail.Pop2.Stream.{PopStream}
use getemail.Pop2.Stream.Read.{read_response}
use getemail.Pop2.Stream.Responds.{replied}
use getemail.Pop2.Sasl.{converse}
use getemail.Pop2.Client.{
  Client, authentication, transaction, state_eq, inner_mut, send_request, check_client_state,
  has_read_greeting,
}
use getemail.Pop2.Client.Features.{expect_capability, capa, store, update_capabilities}
use getemail.Pop2.Client.Commands.{expect_message}
use getemail.Pop2.Client.Session.{with_secret, set_state, auth}
use getemail.Pop2.Client.Answered.{IsOpen}
use getemail.Pop2.Client.Talks.{Exchange, Talking, Talking-same, bound_after, send_request-Talking}
use getemail.Pop2.Nom.{Nom}
use getemail.Pop2.Nom.Laws.{LawfulPrimitives, LawfulCombinators}
use getemail.Pop2.Parser.{with_parser}
use getemail.Pop2.Parser.Answers.{
  Answer, remark, refusal, numbers, mail, one_id, ids, scans, headed_scans, capabilities, value,
}
use getemail.Pop2.Parser.Rfc1939.{new_text}

-- A line of the server: its text, and the spaces behind the status.
pub record Reply : Type 0 where
  pub spaces : Bytes
  pub text : Bytes

abbrev pub asking_capa : Bytes → Answer → Exchange
asking_capa spaces answer = record {
  request = Request.from_command Command.capa;
  spaces = spaces;
  answer = answer;
}

abbrev pub said : Request → Reply → Exchange
said request reply = record { request = request; spaces = reply.spaces; answer = remark reply.text }

-- What the client knows of the server behind an answer to CAPA.
abbrev pub learnt : Answer → Capabilities → Capabilities
learnt (capabilities bytes cs) known = cs
learnt _ known = known

-- AUTH with the initial response of a mechanism.
abbrev pub auth_request : Env → ℕ → Bytes → Option Bytes → Request
auth_request env fuel mechanism secret =
    with_secret env fuel secret (Request.add_arg (Request.from_command Command.auth) mechanism)

module _ (nom : Nom) (prims : LawfulPrimitives nom) (combs : LawfulCombinators nom) (env : Env)
    (laws : LawfulBuffers env) (fuel : ℕ) where
  learn :
      (a : Answer) (c : Client (with_parser env nom))
      → continue
          (succeeded
            (continue (replied (value a), c) (expect_capability (with_parser env nom) fuel)))
          (store (with_parser env nom) fuel)
        ≡ (ok tt, record c { capabilities = learnt a c.capabilities })
  unfolding expect_capability store
  learn (capabilities bytes cs) c = refl
  learn (remark bytes) c = refl
  learn (refusal bytes) c = refl
  learn (numbers l) c = refl
  learn (mail bytes line lines) c = refl
  learn (one_id l) c = refl
  learn (ids bytes ls) c = refl
  learn (scans bytes ls) c = refl
  learn (headed_scans l ls) c = refl

  -- The capabilities are learnt, whatever the answer; an error is dropped.
  pub update_capabilities-Talking :
      (spaces : Bytes) (a : Answer) (xs : List Exchange) (bound : ℕ)
      (c : Client (with_parser env nom))
      → Talking (with_parser env nom) fuel bound (asking_capa spaces a ∷ xs) c
      → IsOpen c.state
      → (s : PopStream (with_parser env nom)) × (update_capabilities (with_parser env nom) fuel c
          ≡ (ok tt, record c { inner = some s; capabilities = learnt a c.capabilities }))
        × Talking
            (with_parser env nom)
            fuel
            (bound_after bound (asking_capa spaces a))
            xs
            (record c { inner = some s; capabilities = learnt a c.capabilities })
  unfolding update_capabilities capa
  update_capabilities-Talking spaces a xs bound c t open_state =
      let (s, sent, talking) =
        send_request-Talking nom prims combs env laws fuel (asking_capa spaces a) xs bound c t
          open_state in
      (
        s,
        rw sent (learn a (record c { inner = some s })),
        Talking-same nom prims combs env laws fuel xs _ (record c { inner = some s }) _ refl
            talking,
      )

  -- A request that is answered by a line.
  pub said-Talking :
      (request : Request) (reply : Reply) (xs : List Exchange) (bound : ℕ)
      (c : Client (with_parser env nom))
      → Talking (with_parser env nom) fuel bound (said request reply ∷ xs) c
      → IsOpen c.state
      → (s : PopStream (with_parser env nom)) × (send_request (with_parser env nom) fuel request c
          ≡ (ok (Response.message (new_text reply.text)), record c { inner = some s }))
        × Talking
            (with_parser env nom)
            fuel
            (bound_after bound (said request reply))
            xs
            (record c { inner = some s })
  said-Talking request reply xs bound c t open_state =
      send_request-Talking nom prims combs env laws fuel (said request reply) xs bound c t
        open_state

  converse_nothing :
      (s : PopStream (with_parser env nom))
      → converse (with_parser env nom) (pure tt) s ≡ (ok tt, s)
  unfolding converse
  converse_nothing s = refl

  -- A mechanism that only has an initial response is a request like any other.
  auth-send_request :
      (request : Request) (c : Client (with_parser env nom))
      → inner_mut
          (do
            Stream.encode (with_parser env nom) request
            converse (with_parser env nom) (pure tt)
            read_response (with_parser env nom) fuel request.command)
          c
        ≡ send_request (with_parser env nom) fuel request c
  unfolding send_request converse
  auth-send_request request c = refl

  -- The client behind the log-in.
  abbrev pub entered :
      Client (with_parser env nom)
      → PopStream (with_parser env nom)
      → Answer
      → Client (with_parser env nom)
  entered c s a = record c {
    inner = some s;
    capabilities = learnt a c.capabilities;
    state = transaction;
  }

  pub check_client_state_lem :
      (c : Client (with_parser env nom))
      → c.state ≡ authentication
      → check_client_state authentication c ≡ (ok tt, c)
  unfolding check_client_state state_eq
  check_client_state_lem c state = ground (arith, state)

  pub has_read_greeting_lem :
      (c : Client (with_parser env nom)) → c.read_greeting ≡ true → has_read_greeting c ≡ (ok tt, c)
  unfolding has_read_greeting
  has_read_greeting_lem c greeted = ground (arith, greeted)

  auth-runs :
      (mechanism : Bytes) (secret : Option Bytes) (message : Text)
      (c c1 c2 : Client (with_parser env nom))
      → c.state ≡ authentication
      → c.read_greeting ≡ true
      → send_request
          (with_parser env nom)
          fuel
          (auth_request (with_parser env nom) fuel mechanism secret)
          c
        ≡ (ok (Response.message message), c1)
      → update_capabilities (with_parser env nom) fuel c1 ≡ (ok tt, c2)
      → auth
          (with_parser env nom)
          fuel
          (record { mechanism = mechanism; auth = secret; handle = pure tt })
          c
        ≡ (ok message, record c2 { state = transaction })
  unfolding auth expect_message set_state
  auth-runs mechanism secret message c c1 c2 state greeted sent updated =
      rw
        (
          check_client_state_lem c state,
          has_read_greeting_lem c greeted,
          auth-send_request (auth_request (with_parser env nom) fuel mechanism secret) c,
          sent,
          updated,
        )
        refl

  -- A mechanism without a conversation: its request is answered by a line, and the capabilities are asked for again.
  pub auth-Talking :
      (mechanism : Bytes) (secret : Option Bytes) (reply : Reply) (spaces : Bytes) (a : Answer)
      (xs : List Exchange) (bound : ℕ) (c : Client (with_parser env nom))
      → c.state ≡ authentication
      → c.read_greeting ≡ true
      → Talking
          (with_parser env nom)
          fuel
          bound
          (said (auth_request (with_parser env nom) fuel mechanism secret) reply
            ∷ asking_capa spaces a
            ∷ xs)
          c
      → (s : PopStream (with_parser env nom)) × (b : ℕ) × (auth
            (with_parser env nom)
            fuel
            (record { mechanism = mechanism; auth = secret; handle = pure tt })
            c
          ≡ (ok (new_text reply.text), entered c s a))
        × Talking (with_parser env nom) fuel b xs (entered c s a)
  auth-Talking mechanism secret reply spaces a xs bound c state greeted t =
      let request = auth_request (with_parser env nom) fuel mechanism secret in
      let (s1, sent, t1) =
        said-Talking request reply (asking_capa spaces a ∷ xs) bound c t (inr state) in
      let (s2, updated, t2) =
        update_capabilities-Talking spaces a xs _ (record c { inner = some s1 }) t1 (inr state) in
      (
        s2,
        _,
        auth-runs mechanism secret (new_text reply.text) c _ _ state greeted sent updated,
        Talking-same nom prims combs env laws fuel xs _ _ (entered c s2 a) refl t2,
      )
