-- ===== src/Mail/Pop3/Fetched.antt =====
-- `connect` and `get_filtered_emails` of src/pop3_protocol.rs one after the other, against a server that answers
-- after RFC 1939 and RFC 2449.
use getemail.Base.{ℕ, List, [], ◌∷◌, Bytes, codes, Option, some, none}
use getemail.Pop2.Env.{Env}
use getemail.Pop2.Response.{Capabilities}
use getemail.Pop2.Sasl.{oauth2_secret}
use getemail.Pop2.Client.{Client}
use getemail.Pop2.Client.Session
use getemail.Pop2.Client.Talks.{Exchange}
use getemail.Pop2.Client.Greeted.{Reply, asking_capa, said, learnt, auth_request}
use getemail.Pop2.Client.LoggedIn.{by_password}
use getemail.Pop2.Nom.{Nom}
use getemail.Pop2.Parser.Answers.{Answer}
use getemail.Mail.Crates.{Crates}
use getemail.Mail.Mailbox.{Mailbox, OAuthData}
use getemail.Mail.Pop3.{Pop3}
use getemail.Mail.Pop3.Served.{Mail}

-- What the server says apart from its mails: the greeting, the answers to CAPA before and behind the log-in,
-- and those to the log-in, of which the second one is to the password, if it is sent in a request of its own.
pub record Manners : Type 0 where
  pub greeting : Reply
  pub spaces : Bytes
  pub capabilities : Answer
  pub first : Reply
  pub second : Reply
  pub spaces_behind : Bytes
  pub capabilities_behind : Answer

module _ {crates : Crates} where
  -- The requests of the log-in, by password or by token, before what follows.
  abbrev pub log_in_requests :
      Env
      → ℕ
      → Mailbox crates
      → Option (OAuthData crates)
      → Capabilities
      → Manners
      → List Exchange
      → List Exchange
  log_in_requests env fuel mailbox none known m xs =
      by_password env fuel mailbox.email mailbox.password known m.first m.second xs
  log_in_requests env fuel mailbox (some oauth) known m xs =
      said
        (auth_request env fuel (codes "XOAUTH2")
          (some (oauth2_secret mailbox.email oauth.access.token)))
        m.first
      ∷ xs

  -- All the requests behind the greeting.
  abbrev pub whole_conversation : Env → ℕ → Mailbox crates → Manners → List Exchange → List Exchange
  whole_conversation env fuel mailbox m xs =
      asking_capa m.spaces m.capabilities
      ∷ log_in_requests env fuel mailbox mailbox.oauth2 (learnt m.capabilities []) m
          (asking_capa m.spaces_behind m.capabilities_behind ∷ xs)
