-- ===== src/Pop2/Client/Keeps.antt =====
-- Invariants of the methods of the client, one rule for each way to build a method. A method keeps a
-- predicate whether it returns, fails, panics or is still running.
use getemail.Base.{
  Bool-cases, inl, inr, ℕ, ◌≡◌, refl, Bool, true, false, [], Option, none, some, if◌then◌else◌,
  ◌||◌, arith,
}
use getemail.Base.Exec.{pure, fail, abort, gets, attempt, ◌>>=◌, succeeded_state, continue_keeps}
use getemail.Pop2.Request.{Request}
use getemail.Pop2.Response.{Capabilities}
use getemail.Pop2.Error.{ErrorKind}
use getemail.Pop2.Env.{Env}
use getemail.Pop2.Stream
use getemail.Pop2.Stream.{PopStream}
use getemail.Pop2.Client.{
  ClientState, transaction, authentication, state_eq, Client, Call, sort, run_on, inner_mut,
  check_client_state, has_read_greeting, is_deleted, check_deleted, send_request,
}
use getemail.Pop2.Client.Features.{check_capability}

module _ {env : Env} where
  pub record Keeps {A : Type 0} (P : Client env → Type 0) (m : Call env A) : Type 0 where
    pub at : (c : Client env) → P c → P (m c).1

  -- The predicate does not look into the socket, the capabilities, or the order of the marks, and
  -- survives the end of all marks.
  pub record IsStable (P : Client env → Type 0) : Type 0 where
    pub inner :
        (c : Client env) (s s' : PopStream env)
        → c.inner ≡ some s
        → P c
        → P (record c { inner = some s' })
    pub capabilities :
        (c : Client env) (cs : Capabilities) → P c → P (record c { capabilities = cs })
    pub sorted : (c : Client env) → P c → P (record c { marked_as_del = sort c.marked_as_del })
    pub cleared : (c : Client env) → P c → P (record c { marked_as_del = [] })

module _ {env : Env} {A : Type 0} {P : Client env → Type 0} where
  pub Keeps-pure : (a : A) → Keeps P (pure a)
  Keeps-pure a = record { at = λ c h. h }

  pub Keeps-fail : (e : ErrorKind) → Keeps {A = A} P (fail e)
  Keeps-fail e = record { at = λ c h. h }

  pub Keeps-abort : Keeps {A = A} P abort
  Keeps-abort = record { at = λ c h. h }

  pub Keeps-gets : (f : Client env → A) → Keeps P (gets f)
  Keeps-gets f = record { at = λ c h. h }

  pub Keeps-if :
      (b : Bool) (m n : Call env A) → Keeps P m → Keeps P n → Keeps P (if b then m else n)
  Keeps-if true m n km kn = km
  Keeps-if false m n km kn = kn

  pub Keeps-attempt : (m : Call env A) → Keeps P m → Keeps P (attempt m)
  Keeps-attempt m k = record { at = λ c h. rw (succeeded_state (m c)) (k.at c h) }

  pub Keeps-inner_mut : IsStable P → (m : Stream.Method env A) → Keeps P (inner_mut m)
  unfolding inner_mut
  Keeps-inner_mut stable m = record { at = λ c h. on c.inner c refl h }
    where
      on : (o : Option (PopStream env)) (c : Client env) → c.inner ≡ o → P c → P (run_on o m c).1
      on none c e h = h
      on (some s) c e h =
          elim (Bool-cases (state_eq c.state transaction || state_eq c.state authentication)) [
            | inl yes' ↦ rw yes' (stable.inner c s (m s).1 e h)
            | inr no' ↦ rw no' h
          ]

module _ {env : Env} {A B : Type 0} {P : Client env → Type 0} where
  pub Keeps-bind :
      (m : Call env A) (f : A → Call env B)
      → Keeps P m
      → ((a : A) → Keeps P (f a))
      → Keeps P (m >>= f)
  Keeps-bind m f km kf = record {
    at = λ c h. continue_keeps P (m c) f (km.at c h) (λ a t. (kf a).at t);
  }

module _ {env : Env} {P : Client env → Type 0} where
  pub Keeps-check_client_state : (state : ClientState) → Keeps P (check_client_state state)
  unfolding check_client_state
  Keeps-check_client_state state = record { at = λ c h. ground (arith, h) }

  pub Keeps-has_read_greeting : Keeps P has_read_greeting
  unfolding has_read_greeting
  Keeps-has_read_greeting = record { at = λ c h. ground (arith, h) }

  pub Keeps-check_capability : (cs : Capabilities) → Keeps P (check_capability cs)
  unfolding check_capability
  Keeps-check_capability cs = record { at = λ c h. ground (arith, h) }

  pub Keeps-is_deleted : IsStable P → (n : ℕ) → Keeps P (is_deleted n)
  unfolding is_deleted
  Keeps-is_deleted stable n = record { at = stable.sorted }

pub ruleset keeps_rules = (
  Keeps-pure, Keeps-fail, Keeps-abort, Keeps-gets, Keeps-if, Keeps-attempt, Keeps-inner_mut,
  Keeps-bind, Keeps-check_client_state, Keeps-has_read_greeting, Keeps-check_capability,
  Keeps-is_deleted,
)

module _ {env : Env} {P : Client env → Type 0} (stable : IsStable P) where
  pub Keeps-check_deleted : (n : ℕ) → Keeps P (check_deleted n)
  unfolding check_deleted
  Keeps-check_deleted n = search keeps_rules

  pub Keeps-send_request : (fuel : ℕ) (r : Request) → Keeps P (send_request env fuel r)
  unfolding send_request
  Keeps-send_request fuel r = search keeps_rules
