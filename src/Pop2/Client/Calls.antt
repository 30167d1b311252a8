-- ===== src/Pop2/Client/Calls.antt =====
-- The public methods of the client as data, and the run of a sequence of them.
use getemail.Base.{ℕ, ◌≡◌, refl, List, [], ◌∷◌, Bytes, Option}
use getemail.Base.Exec.{Outcome, ok, err, panic, stuck, pure, continue, ◌>>=◌}
use getemail.Pop2.Request.{Request}
use getemail.Pop2.Error.{ErrorKind}
use getemail.Pop2.Env.{Env}
use getemail.Pop2.Sasl.{Authenticator}
use getemail.Pop2.Client
use getemail.Pop2.Client.{Client, Call}
use getemail.Pop2.Client.Features
use getemail.Pop2.Client.Commands
use getemail.Pop2.Client.Session

-- A call of a public method.
pub data Op (env : Env) : Type 0 where
  noop : Op env
  uidl : Option ℕ → Op env
  top : ℕ → ℕ → Op env
  dele : ℕ → Op env
  rset : Op env
  retr : ℕ → Op env
  list : Option ℕ → Op env
  stat : Op env
  capa : Op env
  is_deleted : ℕ → Op env
  send_request : Request → Op env
  apop : Bytes → Bytes → Op env
  auth : Authenticator env → Op env
  login : Bytes → Bytes → Op env
  quit : Op env

-- What a method may assign to the state.
pub data Kind : Type 0 where
  command entering leaving : Kind

abbrev pub kind : {env : Env} → Op env → Kind
kind (apop name digest) = entering
kind (auth a) = entering
kind (login user password) = entering
kind quit = leaving
kind _ = command

-- The call with its result dropped.
abbrev pub dropped : {env : Env} {A : Type 0} → Call env A → Call env Unit
dropped m = m >>= λ _. pure tt

pub dropped_state :
    {env : Env} {A : Type 0} (m : Call env A) (c : Client env) → (dropped m c).1 ≡ (m c).1
dropped_state {env} {A} m c = split (m c)
  where
    split : (r : Outcome ErrorKind A × Client env) → (continue r (λ _. pure tt)).1 ≡ r.1
    split (ok a, s) = refl
    split (err e, s) = refl
    split (panic, s) = refl
    split (stuck, s) = refl

module _ (env : Env) (fuel : ℕ) where
  unfoldable pub perform : Op env → Call env Unit
  perform noop = Commands.noop env fuel
  perform (uidl n) = dropped (Commands.uidl env fuel n)
  perform (top n lines) = dropped (Commands.top env fuel n lines)
  perform (dele n) = dropped (Commands.dele env fuel n)
  perform rset = dropped (Commands.rset env fuel)
  perform (retr n) = dropped (Commands.retr env fuel n)
  perform (list n) = dropped (Commands.list env fuel n)
  perform stat = dropped (Commands.stat env fuel)
  perform capa = dropped (Features.capa env fuel)
  perform (is_deleted n) = dropped (Client.is_deleted n)
  perform (send_request r) = dropped (Client.send_request env fuel r)
  perform (apop name digest) = dropped (Session.apop env fuel name digest)
  perform (auth a) = dropped (Session.auth env fuel a)
  perform (login user password) = dropped (Session.login env fuel user password)
  perform quit = dropped (Session.quit env fuel)

  unfoldable pub run : Client env → List (Op env) → Client env
  unfolding perform
  run c [] = c
  run c (op ∷ ops) = run (perform op c).1 ops
