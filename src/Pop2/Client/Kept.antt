-- ===== src/Pop2/Client/Kept.antt =====
-- Every method keeps the predicates that its assignments keep: the commands each stable one, the
-- logins each stable one that survives the change to the transaction state.
use getemail.Base.{ℕ, ◌≡◌, List, [], Bytes, Option, none, some, Bool, true}
use getemail.Base.Exec.{pure}
use getemail.Pop2.Response.{Response}
use getemail.Pop2.Types.{Text}
use getemail.Pop2.Env.{Env}
use getemail.Pop2.Sasl.{Authenticator}
use getemail.Pop2.Client.{Client, transaction}
use getemail.Pop2.Client.Features
use getemail.Pop2.Client.Features.{update_capabilities, expect_capability, store}
use getemail.Pop2.Client.Commands
use getemail.Pop2.Client.Commands.{
  clear_marks, expect_message, expect_bytes, expect_uidl, expect_stat, expect_list, check_number,
}
use getemail.Pop2.Client.Session
use getemail.Pop2.Client.Calls.{
  Op, noop, uidl, top, dele, rset, retr, list, stat, capa, is_deleted, send_request, apop, auth,
  login, kind, command, entering, perform,
}
use getemail.Pop2.Client.Session.{
  set_state, note_greeting, store_greeting, try_plain, user_pass, greeted, read_greeting,
  open_session,
}
use getemail.Pop2.Client.Keeps.{
  Keeps, IsStable, keeps_rules, Keeps-check_deleted, Keeps-send_request, Keeps-bind,
}

module _ {env : Env} {P : Client env → Type 0} where
  pub Keeps-expect_message : (r : Response) → Keeps P (expect_message r)
  unfolding expect_message
  Keeps-expect_message (Response.message t) = search keeps_rules
  Keeps-expect_message _ = search keeps_rules

  Keeps-expect_bytes : (r : Response) → Keeps P (expect_bytes r)
  unfolding expect_bytes
  Keeps-expect_bytes (Response.bytes t) = search keeps_rules
  Keeps-expect_bytes _ = search keeps_rules

  Keeps-expect_uidl : (r : Response) → Keeps P (expect_uidl r)
  unfolding expect_uidl
  Keeps-expect_uidl (Response.uidl t) = search keeps_rules
  Keeps-expect_uidl _ = search keeps_rules

  Keeps-expect_stat : (r : Response) → Keeps P (expect_stat r)
  unfolding expect_stat
  Keeps-expect_stat (Response.stat t) = search keeps_rules
  Keeps-expect_stat _ = search keeps_rules

  Keeps-expect_list : (r : Response) → Keeps P (expect_list r)
  unfolding expect_list
  Keeps-expect_list (Response.list t) = search keeps_rules
  Keeps-expect_list (Response.stat t) = search keeps_rules
  Keeps-expect_list _ = search keeps_rules

  Keeps-expect_capability : (fuel : ℕ) (r : Response) → Keeps P (expect_capability env fuel r)
  unfolding expect_capability
  Keeps-expect_capability fuel (Response.capability t) = search keeps_rules
  Keeps-expect_capability fuel _ = search keeps_rules

ruleset answers = (
  keeps_rules, Keeps-send_request, Keeps-check_deleted, Keeps-expect_message, Keeps-expect_bytes,
  Keeps-expect_uidl, Keeps-expect_stat, Keeps-expect_list, Keeps-expect_capability,
)

module _ {env : Env} {P : Client env → Type 0} (stable : IsStable P) (fuel : ℕ) where
  Keeps-store : (cs : Option (List _)) → Keeps P (store env fuel cs)
  unfolding store
  Keeps-store none = search keeps_rules
  Keeps-store (some cs) = record { at = λ c h. stable.capabilities c cs h }

  Keeps-check_number : (n : Option ℕ) → Keeps P (check_number n)
  unfolding check_number
  Keeps-check_number none = search answers
  Keeps-check_number (some n) = search answers

  pub Keeps-capa : Keeps P (Features.capa env fuel)
  unfolding Features.capa
  Keeps-capa = search answers

  pub Keeps-update_capabilities : Keeps P (update_capabilities env fuel)
  unfolding update_capabilities
  Keeps-update_capabilities = search (answers, Keeps-capa, Keeps-store)

  pub Keeps-noop : Keeps P (Commands.noop env fuel)
  unfolding Commands.noop
  Keeps-noop = search answers

  pub Keeps-uidl : (n : Option ℕ) → Keeps P (Commands.uidl env fuel n)
  unfolding Commands.uidl
  Keeps-uidl n = search (answers, Keeps-check_number)

  pub Keeps-top : (n lines : ℕ) → Keeps P (Commands.top env fuel n lines)
  unfolding Commands.top
  Keeps-top n lines = search answers

  pub Keeps-dele : (n : ℕ) → Keeps P (Commands.dele env fuel n)
  unfolding Commands.dele
  Keeps-dele n = search answers

  Keeps-clear_marks : Keeps P (clear_marks env fuel)
  unfolding clear_marks
  Keeps-clear_marks = record { at = stable.cleared }

  pub Keeps-rset : Keeps P (Commands.rset env fuel)
  unfolding Commands.rset
  Keeps-rset = search (answers, Keeps-clear_marks)

  pub Keeps-retr : (n : ℕ) → Keeps P (Commands.retr env fuel n)
  unfolding Commands.retr
  Keeps-retr n = search answers

  pub Keeps-list : (n : Option ℕ) → Keeps P (Commands.list env fuel n)
  unfolding Commands.list
  Keeps-list n = search (answers, Keeps-check_number)

  pub Keeps-stat : Keeps P (Commands.stat env fuel)
  unfolding Commands.stat
  Keeps-stat = search answers

  -- The greeting may change too.
  module _
      (greets : (c : Client env) (t : Option Text) (b : Bool)
        → P c
        → P (record c { greeting = t; read_greeting = b })) where
    Keeps-note_greeting : (t : Text) → Keeps P (note_greeting env fuel t)
    unfolding note_greeting
    Keeps-note_greeting t = record { at = λ c. greets c (some t) true }

    Keeps-store_greeting : (t : Text) → Keeps P (store_greeting env fuel t)
    unfolding store_greeting
    Keeps-store_greeting t = record { at = λ c. greets c (some t) c.read_greeting }

    Keeps-greeted : (r : Response) → Keeps P (greeted env fuel r)
    unfolding greeted
    Keeps-greeted (Response.message t) = search (answers, Keeps-note_greeting)
    Keeps-greeted _ = search keeps_rules

    pub Keeps-read_greeting : Keeps P (read_greeting env fuel)
    unfolding read_greeting
    Keeps-read_greeting = search (answers, Keeps-greeted) depth 8

    pub Keeps-open_session : Keeps P (open_session env fuel)
    unfolding open_session
    Keeps-open_session =
        search (Keeps-bind, Keeps-read_greeting, Keeps-store_greeting, Keeps-update_capabilities)

  module _ (enters : (c : Client env) → P c → P (record c { state = transaction })) where
    Keeps-set_state : Keeps P (set_state env fuel transaction)
    unfolding set_state
    Keeps-set_state = record { at = enters }

    pub Keeps-apop : (name digest : Bytes) → Keeps P (Session.apop env fuel name digest)
    unfolding Session.apop
    Keeps-apop name digest = search (answers, Keeps-update_capabilities, Keeps-set_state) depth 12

    pub Keeps-auth : (a : Authenticator env) → Keeps P (Session.auth env fuel a)
    unfolding Session.auth
    Keeps-auth a = search (answers, Keeps-update_capabilities, Keeps-set_state) depth 12

    Keeps-try_plain : (user password : Bytes) → Keeps P (try_plain env fuel user password)
    unfolding try_plain
    Keeps-try_plain user password = search (answers, Keeps-auth)

    Keeps-user_pass : (user password : Bytes) → Keeps P (user_pass env fuel user password)
    unfolding user_pass
    Keeps-user_pass user password =
        search (answers, Keeps-update_capabilities, Keeps-set_state) depth 12

    pub Keeps-login : (user password : Bytes) → Keeps P (Session.login env fuel user password)
    unfolding Session.login
    Keeps-login user password = search (answers, Keeps-try_plain, Keeps-finish) depth 8
      where
        Keeps-finish :
            (done : Option Text)
            → Keeps P (elim done [
              | some text ↦ pure (text, record { inner = [] })
              | none ↦ user_pass env fuel user password
            ])
        Keeps-finish (some text) = search keeps_rules
        Keeps-finish none = search Keeps-user_pass

module _ {env : Env} {P : Client env → Type 0} (stable : IsStable P) (fuel : ℕ) where
  -- A command keeps every stable predicate.
  pub perform_command : (op : Op env) → kind op ≡ command → Keeps P (perform env fuel op)
  unfolding perform
  perform_command noop k = Keeps-noop stable fuel
  perform_command (uidl n) k = search (keeps_rules, Keeps-uidl)
  perform_command (top n lines) k = search (keeps_rules, Keeps-top)
  perform_command (dele n) k = search (keeps_rules, Keeps-dele)
  perform_command rset k = search (keeps_rules, Keeps-rset)
  perform_command (retr n) k = search (keeps_rules, Keeps-retr)
  perform_command (list n) k = search (keeps_rules, Keeps-list)
  perform_command stat k = search (keeps_rules, Keeps-stat)
  perform_command capa k = search (keeps_rules, Keeps-capa)
  perform_command (is_deleted n) k = search keeps_rules
  perform_command (send_request r) k = search (keeps_rules, Keeps-send_request)
  perform_command _ k = absurd (cc)

  -- A login keeps those that survive the change to the transaction state.
  pub perform_entering :
      ((c : Client env) → P c → P (record c { state = transaction }))
      → (op : Op env) → kind op ≡ entering
      → Keeps P (perform env fuel op)
  unfolding perform
  perform_entering enters (apop name digest) k = search (keeps_rules, Keeps-apop)
  perform_entering enters (auth a) k = search (keeps_rules, Keeps-auth)
  perform_entering enters (login user password) k = search (keeps_rules, Keeps-login)
  perform_entering enters _ k = absurd (cc)
