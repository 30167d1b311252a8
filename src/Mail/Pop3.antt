-- ===== src/Mail/Pop3.antt =====
-- src/pop3_protocol.rs: the reader of a mailbox over POP3, on the client of async-pop2.
pub mod Crawl
pub mod Sound
pub mod Served
pub mod Fetched
use getemail.Base.{
  ℕ, zero, suc, Bool, List, [], ◌∷◌, ◌++◌, Bytes, Option, none, some, ltb, if◌then◌else◌,
}
use getemail.Base.Exec.{Outcome, ok, err, panic, stuck, Exec, pure, fail, lift, modify, ◌>>=◌, ◌>>◌}
use getemail.Pop2.Error.{ErrorKind}
use getemail.Pop2.Env.{Env}
use getemail.Pop2.Types.Value.{value}
use getemail.Pop2.Sasl.{oauth2_authenticator}
use getemail.Pop2.Client.{Client, Call}
use getemail.Pop2.Client.Commands
use getemail.Pop2.Client.Session
use getemail.Mail.Crates.{Crates}
use getemail.Mail.Mailbox.{Mailbox, OAuthData, Error, pop, message_parse_failed}

pub record Pop3 (env : Env) (crates : Crates) : Type 0 where
  pub client : Client env
  pub mailbox_info : Mailbox crates

-- `?` on a result of async-pop2.
abbrev pub from_pop : {A : Type 0} → Outcome ErrorKind A → Outcome Error A
from_pop (ok a) = ok a
from_pop (err e) = err (pop e)
from_pop panic = panic
from_pop stuck = stuck

-- A test of a message: what an `impl Filter` is.
abbrev pub Test : Crates → Type 0
Test crates = crates.Message → Bool

module _ {env : Env} {crates : Crates} where
  unfoldable pub on_client : {A : Type 0} → Call env A → Exec Error (Pop3 env crates) A
  on_client m reader =
      let (r, client) = m reader.client in (from_pop r, record reader { client = client })

-- `result.push`, if the filter takes the message.
unfoldable pub push_if : {A : Type 0} → (A → Bool) → A → List A → List A
push_if filter msg result = if filter msg then result ++ msg ∷ [] else result

module _ (env : Env) (crates : Crates) (fuel : ℕ) where
  parsed : Option crates.Message → Exec Error (Pop3 env crates) crates.Message
  parsed none = fail message_parse_failed
  parsed (some msg) = pure msg

  -- The loop: `count` messages from the number `curr_msg_id` on.
  unfoldable pub crawl :
      Test crates → ℕ → ℕ → List crates.Message → Exec Error (Pop3 env crates) (List crates.Message)
  unfolding on_client parsed push_if
  crawl filter zero curr_msg_id result = pure result
  crawl filter (suc count) curr_msg_id result = do
    bytes ← on_client (Commands.retr env fuel curr_msg_id)
    new_msg ← parsed (crates.parse bytes)
    crawl filter count (suc curr_msg_id) (push_if filter new_msg result)

  unfoldable pub get_filtered_emails :
      Test crates → Exec Error (Pop3 env crates) (List crates.Message)
  unfolding on_client crawl
  get_filtered_emails filter = do
    stat ← on_client (Commands.stat env fuel)
    total_msg_count ← lift (from_pop (value stat.message_count))
    if ltb total_msg_count 1 then pure [] else crawl filter total_msg_count 1 []

  -- The part of `connect` behind the opening of the stream: the log-in, by password or by token.
  unfoldable pub log_in : Mailbox crates → Option (OAuthData crates) → Call env Unit
  log_in mailbox none = do Session.login env fuel mailbox.email mailbox.password; pure tt
  log_in mailbox (some oauth) = do
    Session.auth env fuel (oauth2_authenticator env mailbox.email oauth.access.token)
    pure tt

  unfoldable pub logged_in :
      Mailbox crates → Outcome ErrorKind Unit × Client env → Outcome Error (Pop3 env crates)
  logged_in mailbox (ok done, client) = ok (record { client = client; mailbox_info = mailbox })
  logged_in mailbox (err e, client) = err (pop e)
  logged_in mailbox (panic, client) = panic
  logged_in mailbox (stuck, client) = stuck

  unfoldable pub opened :
      Mailbox crates → Outcome ErrorKind Unit × Client env → Outcome Error (Pop3 env crates)
  unfolding log_in logged_in
  opened mailbox (ok done, client) = logged_in mailbox (log_in mailbox mailbox.oauth2 client)
  opened mailbox (err e, client) = err (pop e)
  opened mailbox (panic, client) = panic
  opened mailbox (stuck, client) = stuck

  unfoldable pub connect : Mailbox crates → env.Socket → Outcome Error (Pop3 env crates)
  unfolding opened
  connect mailbox stream = opened mailbox (Session.new env fuel stream)
