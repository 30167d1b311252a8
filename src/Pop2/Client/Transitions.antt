-- ===== src/Pop2/Client/Transitions.antt =====
-- Which method may change the state of a session, and how.
use getemail.Base.{ℕ, ◌≡◌, refl, ap, ◌⊎◌, inl, inr, arith}
use getemail.Base.Exec.{err, continue_reaches}
use getemail.Pop2.Error.{incorrect_state_for_command}
use getemail.Pop2.Env.{Env}
use getemail.Pop2.Client
use getemail.Pop2.Client.{ClientState, authentication, transaction, Client, Call}
use getemail.Pop2.Client.Session
use getemail.Pop2.Client.Calls.{
  Op, apop, auth, login, quit, Kind, command, entering, leaving, kind, perform, dropped_state,
}
use getemail.Pop2.Client.Keeps.{Keeps, IsStable, Keeps-send_request}
use getemail.Pop2.Client.Kept.{perform_command, perform_entering, Keeps-expect_message}

abbrev pub LogsIn : ClientState → ClientState → Type 0
LogsIn a b = (b ≡ a) ⊎ ((a ≡ authentication) × (b ≡ transaction))

-- The states before and after a call of each kind.
abbrev pub Allowed : Kind → ClientState → ClientState → Type 0
Allowed command a b = b ≡ a
Allowed entering a b = LogsIn a b
Allowed leaving a b = (b ≡ a) ⊎ (b ≡ ClientState.none)

module _ {env : Env} where
  HasState : ClientState → Client env → Type 0
  HasState state c = c.state ≡ state

  HasState-stable : (state : ClientState) → IsStable (HasState state)
  unfolding HasState
  HasState-stable state = record {
    inner = λ c s s' e h. h;
    capabilities = λ c cs h. h;
    sorted = λ c h. h;
    cleared = λ c h. h;
  }

  InLogin : Client env → Type 0
  InLogin c = (c.state ≡ authentication) ⊎ (c.state ≡ transaction)

  InLogin-stable : IsStable InLogin
  unfolding InLogin
  InLogin-stable = record {
    inner = λ c s s' e h. h;
    capabilities = λ c cs h. h;
    sorted = λ c h. h;
    cleared = λ c h. h;
  }

  InLogin-enters : (c : Client env) → InLogin c → InLogin (record c { state = transaction })
  unfolding InLogin
  InLogin-enters c h = inr refl

  -- A method that begins with the check of the state.
  login_step :
      {A : Type 0} (m : Call env A)
      → Keeps InLogin m
      → ((c : Client env)
          → Client.check_client_state authentication c ≡ (err incorrect_state_for_command, c)
          → (m c).1 ≡ c)
      → (c : Client env) → LogsIn c.state (m c).1.state
  unfolding InLogin Client.check_client_state
  login_step m keeps checks c = split c.state refl
    where
      split : (state : ClientState) → c.state ≡ state → LogsIn c.state (m c).1.state
      split authentication e = ground (arith, keeps.at c (inl e))
      split transaction e = inl (ap (λ d. d.state) (checks c (ground arith)))
      split Client.update e = inl (ap (λ d. d.state) (checks c (ground arith)))
      split ClientState.none e = inl (ap (λ d. d.state) (checks c (ground arith)))

module _ (env : Env) (fuel : ℕ) where
  refused_entering :
      (op : Op env) (c : Client env)
      → kind op ≡ entering
      → Client.check_client_state authentication c ≡ (err incorrect_state_for_command, c)
      → (perform env fuel op c).1 ≡ c
  unfolding perform Session.apop Session.auth Session.login
  refused_entering (apop name digest) c k e = rw e
  refused_entering (auth a) c k e = rw e
  refused_entering (login user password) c k e = rw e
  refused_entering _ c k e = absurd (cc)

  quit-Allowed : (c : Client env) → Allowed leaving c.state (perform env fuel quit c).1.state
  unfolding perform Session.quit HasState
  quit-Allowed c = rw (dropped_state (Session.quit env fuel) c) (
      continue_reaches (HasState c.state) (λ d. Allowed leaving c.state d.state)
        (Client.send_request env fuel _ c) _
        ((Keeps-send_request (HasState-stable c.state) fuel _).at c refl) (λ s h. inl h)
        (λ response s h.
          inr ((Keeps-expect_message {P = HasState ClientState.none} response).at _ refl)))

  -- Only `apop`, `auth` and `login` lead from the authentication to the transaction state, and only
  -- `quit` to the end; every other call, failing or not, leaves the state as it was.
  pub perform-Allowed :
      (op : Op env) (c : Client env) → Allowed (kind op) c.state (perform env fuel op c).1.state
  unfolding HasState
  perform-Allowed op c = split (kind op) refl
    where
      split : (k : Kind) → kind op ≡ k → Allowed k c.state (perform env fuel op c).1.state
      split command k = (perform_command (HasState-stable c.state) fuel op k).at c refl
      split entering k =
          login_step (perform env fuel op)
            (perform_entering InLogin-stable fuel InLogin-enters op k)
            (λ d e. refused_entering op d k e) c
      split leaving k = left op k
        where
          left :
              (o : Op env)
              → kind o ≡ leaving
              → Allowed leaving c.state (perform env fuel o c).1.state
          left quit k = quit-Allowed c
          left _ k = absurd (cc)
