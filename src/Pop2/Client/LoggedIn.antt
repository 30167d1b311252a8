-- ===== src/Pop2/Client/LoggedIn.antt =====
-- The log-in by password, against a server that answers after RFC 1939 and RFC 2449.
use getemail.Base.{
  ℕ, ◌≡◌, refl, inl, inr, true, false, Bool-cases, List, [], ◌∷◌, Bytes, codes, some, if◌then◌else◌,
}
use getemail.Base.Exec.{ok}
use getemail.Pop2.Command
use getemail.Pop2.Request
use getemail.Pop2.Request.{Request}
use getemail.Pop2.Types.{Text}
use getemail.Pop2.Response.{Response, Capabilities}
use getemail.Pop2.Env.{Env, LawfulBuffers}
use getemail.Pop2.Stream.{PopStream}
use getemail.Pop2.Sasl.{plain_secret, plain_authenticator}
use getemail.Pop2.Client.{Client, authentication, transaction, send_request}
use getemail.Pop2.Client.Features.{any_sasl, has_auth_mechanism, update_capabilities}
use getemail.Pop2.Client.Commands.{expect_message}
use getemail.Pop2.Client.Session.{set_state, auth, try_plain, user_pass, login}
use getemail.Pop2.Client.Talks.{Exchange, Talking, Talking-same}
use getemail.Pop2.Nom.{Nom}
use getemail.Pop2.Nom.Laws.{LawfulPrimitives, LawfulCombinators}
use getemail.Pop2.Parser.{with_parser}
use getemail.Pop2.Parser.Answers.{Answer}
use getemail.Pop2.Client.Greeted.{
  Reply, asking_capa, said, auth_request, update_capabilities-Talking, said-Talking, entered,
  auth-Talking, check_client_state_lem, has_read_greeting_lem,
}

abbrev pub user_request : Bytes → Request
user_request user = Request.add_arg (Request.from_command Command.user) user

abbrev pub pass_request : Bytes → Request
pass_request password = Request.add_arg (Request.from_command Command.pass) password

-- The requests of `login` to a server of which these capabilities are known, before what follows.
abbrev pub by_password :
    Env → ℕ → Bytes → Bytes → Capabilities → Reply → Reply → List Exchange → List Exchange
by_password env fuel user password known first second xs =
    if any_sasl (codes "PLAIN") known
    then said (auth_request env fuel (codes "PLAIN") (some (plain_secret user password))) first ∷ xs
    else said (user_request user) first ∷ said (pass_request password) second ∷ xs

module _ (nom : Nom) (prims : LawfulPrimitives nom) (combs : LawfulCombinators nom) (env : Env)
    (laws : LawfulBuffers env) (fuel : ℕ) where
  user_pass-runs :
      (user password : Bytes) (first second : Text) (c c1 c2 c3 : Client (with_parser env nom))
      → c.read_greeting ≡ true
      → send_request (with_parser env nom) fuel (user_request user) c
        ≡ (ok (Response.message first), c1)
      → send_request (with_parser env nom) fuel (pass_request password) c1
        ≡ (ok (Response.message second), c2)
      → update_capabilities (with_parser env nom) fuel c2 ≡ (ok tt, c3)
      → user_pass (with_parser env nom) fuel user password c
        ≡ (ok (first, second), record c3 { state = transaction })
  unfolding user_pass expect_message set_state
  user_pass-runs user password first second c c1 c2 c3 greeted sent sent' updated =
      rw (has_read_greeting_lem nom prims combs env laws fuel c greeted, sent, sent', updated) refl

  login-plain :
      (user password : Bytes) (message : Text) (c c' : Client (with_parser env nom))
      → c.state ≡ authentication
      → has_auth_mechanism (codes "PLAIN") c ≡ true
      → auth (with_parser env nom) fuel (plain_authenticator (with_parser env nom) user password) c
        ≡ (ok message, c')
      → login (with_parser env nom) fuel user password c ≡ (ok (message, record { inner = [] }), c')
  unfolding login try_plain
  login-plain user password message c c' state offered run =
      rw (check_client_state_lem nom prims combs env laws fuel c state, offered, run) refl

  login-user_pass :
      (user password : Bytes) (texts : Text × Text) (c c' : Client (with_parser env nom))
      → c.state ≡ authentication
      → has_auth_mechanism (codes "PLAIN") c ≡ false
      → user_pass (with_parser env nom) fuel user password c ≡ (ok texts, c')
      → login (with_parser env nom) fuel user password c ≡ (ok texts, c')
  unfolding login try_plain
  login-user_pass user password texts c c' state offered run =
      rw (check_client_state_lem nom prims combs env laws fuel c state, offered, run) refl

  -- The log-in by password, with the mechanism PLAIN where the server has stated it.
  pub login-Talking :
      (user password : Bytes) (first second : Reply) (spaces : Bytes) (a : Answer)
      (xs : List Exchange) (bound : ℕ) (c : Client (with_parser env nom))
      → c.state ≡ authentication
      → c.read_greeting ≡ true
      → Talking
          (with_parser env nom)
          fuel
          bound
          (by_password
            (with_parser env nom)
            fuel
            user
            password
            c.capabilities
            first
            second
            (asking_capa spaces a ∷ xs))
          c
      → (texts : Text × Text) × (s : PopStream (with_parser env nom)) × (b : ℕ) × (login
            (with_parser env nom)
            fuel
            user
            password
            c
          ≡ (ok texts, entered nom prims combs env laws fuel c s a))
        × Talking (with_parser env nom) fuel b xs (entered nom prims combs env laws fuel c s a)
  unfolding has_auth_mechanism plain_authenticator
  login-Talking user password first second spaces a xs bound c state greeted t =
      elim (Bool-cases (any_sasl (codes "PLAIN") c.capabilities)) [
        | inl offered ↦
            let (s, b, run, t') =
              auth-Talking nom prims combs env laws fuel (codes "PLAIN")
                (some (plain_secret user password)) first spaces a xs bound c state greeted
                (rw offered at t) in
            (_, s, b, login-plain user password _ c _ state offered run, t')
        | inr missing ↦
            let (s1, sent1, t1) =
              said-Talking nom prims combs env laws fuel (user_request user) first
                (said (pass_request password) second ∷ asking_capa spaces a ∷ xs) bound c
                (rw missing at t) (inr state) in
            let (s2, sent2, t2) =
              said-Talking nom prims combs env laws fuel (pass_request password) second
                (asking_capa spaces a ∷ xs) _ (record c { inner = some s1 }) t1 (inr state) in
            let (s3, updated, t3) =
              update_capabilities-Talking nom prims combs env laws fuel spaces a xs _
                (record c { inner = some s2 }) t2 (inr state) in
            (
              _,
              s3,
              _,
              login-user_pass user password _ c _ state missing
                  (user_pass-runs user password _ _ c _ _ _ greeted sent1 sent2 updated),
              Talking-same nom prims combs env laws fuel xs _ _
                  (entered nom prims combs env laws fuel c s3 a) refl t3,
            )
      ]
