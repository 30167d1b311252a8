-- ===== src/Mail/Imap.antt =====
-- src/imap_protocol.rs: the reader of a mailbox over IMAP. The crate async-imap is the record `Imap`:
-- its session, and what its calls answer.
pub mod Crawl
use getemail.Base.{
  ℕ, Bool, true, false, not, ◌&&◌, ◌||◌, List, [], ◌∷◌, ◌++◌, Bytes, codes, Option, none, some, ◌⊎◌,
  inl, inr, if◌then◌else◌,
}
use getemail.Base.Decimal.{decimal}
use getemail.Base.Exec.{Outcome, ok, err, Exec, pure, fail, ◌>>=◌, ◌>>◌}
use getemail.Mail.Crates.{Crates}
use getemail.Mail.Mailbox.{Mailbox, OAuthData, ImapError, Error, imap, message_parse_failed}
use getemail.Mail.Pop3.{Test, push_if}

pub record Name (Attribute : Type 0) : Type 0 where
  pub name : Bytes
  pub attributes : List Attribute

-- The items of a stream are given as a list.
pub record Imap : Type 1 where
  pub Session : Type 0
  pub Conn : Type 0
  pub Client : Type 0
  pub new : Conn → Client
  pub run_command_and_check_ok : Client → Bytes → (ImapError ⊎ Unit {0}) × Client
  -- A mechanism, and the response of its authenticator.
  pub authenticate : Client → Bytes → Bytes → ImapError ⊎ Session
  pub select : Session → Bytes → (ImapError ⊎ ℕ) × Session
  -- The bodies of the messages.
  pub fetch : Session → Bytes → Bytes → (ImapError ⊎ List (ImapError ⊎ Option Bytes)) × Session
  pub Attribute : Type 0
  pub is_sent : Attribute → Bool
  pub is_drafts : Attribute → Bool
  pub list :
      Session
      → Option Bytes
      → Option Bytes
      → (ImapError ⊎ List (ImapError ⊎ Name Attribute)) × Session

-- `format!("\0{}\0{}", login, password)` and `format!("user={}\x01auth=Bearer {}\x01\x01", ..)`.
unfoldable pub plain_auth : Bytes → Bytes → Bytes
plain_auth login password = 0 ∷ (login ++ 0 ∷ password)

unfoldable pub oauth2 : Bytes → Bytes → Bytes
oauth2 login token = codes "user=" ++ (login ++ 1 ∷ (codes "auth=Bearer " ++ (token ++ 1 ∷ 1 ∷ [])))

abbrev pub from_imap : {A S : Type 0} → (ImapError ⊎ A) × S → Outcome Error A × S
from_imap (inl e, s) = (err (imap e), s)
from_imap (inr a, s) = (ok a, s)

module _ (env : Imap) (crates : Crates) where
  abbrev pub Reader : Type 0 → Type 0
  Reader A = Exec Error env.Session A

  select : Bytes → Reader ℕ
  select folder s = from_imap (env.select s folder)

  fetch : Bytes → Reader (List (ImapError ⊎ Option Bytes))
  fetch sequence s = from_imap (env.fetch s sequence (codes "RFC822"))

  list_all : Reader (List (ImapError ⊎ Name env.Attribute))
  list_all s = from_imap (env.list s none (some (codes "*")))

  unfoldable pub unwrap_or_else : Option Bytes → Bytes
  unwrap_or_else none = []
  unwrap_or_else (some body) = body

  pushed : Test crates → Option crates.Message → List crates.Message → Reader (List crates.Message)
  unfolding push_if
  pushed filter none res = fail message_parse_failed
  pushed filter (some new_msg) res = pure (push_if filter new_msg res)

  unfoldable pub collect :
      Test crates
      → List (ImapError ⊎ Option Bytes)
      → List crates.Message
      → Reader (List crates.Message)
  unfolding pushed unwrap_or_else
  collect filter [] res = pure res
  collect filter (inl e ∷ fetches) res = fail (imap e)
  collect filter (inr body ∷ fetches) res = do
    res' ← pushed filter (crates.parse (unwrap_or_else body)) res
    collect filter fetches res'

  unfoldable pub crawl_messages : Bytes → Test crates → Reader (List crates.Message)
  unfolding select fetch collect
  crawl_messages folder filter = do
    exists ← select folder
    fetch_result ← fetch (codes "1:" ++ decimal exists)
    collect filter fetch_result []

  unfoldable pub is_ok_folder : List env.Attribute → Bool
  is_ok_folder [] = true
  is_ok_folder (x ∷ xs) = not (env.is_sent x || env.is_drafts x) && is_ok_folder xs

  unfoldable pub collect_folders :
      List (ImapError ⊎ Name env.Attribute) → List Bytes → Reader (List Bytes)
  unfolding is_ok_folder
  collect_folders [] server_folders = pure server_folders
  collect_folders (inl e ∷ stream) server_folders = fail (imap e)
  collect_folders (inr item ∷ stream) server_folders =
      collect_folders stream
        (if is_ok_folder item.attributes then server_folders ++ item.name ∷ [] else server_folders)

  unfoldable pub get_folders : Reader (List Bytes)
  unfolding list_all collect_folders
  get_folders = do stream ← list_all; collect_folders stream []

  unfoldable pub extend_all :
      List Bytes → Test crates → List crates.Message → Reader (List crates.Message)
  unfolding crawl_messages
  extend_all [] filter res = pure res
  extend_all (folder ∷ folders) filter res = do
    msgs ← crawl_messages folder filter
    extend_all folders filter (res ++ msgs)

  unfoldable pub crawl_folders : List Bytes → Test crates → Reader (List crates.Message)
  unfolding extend_all
  crawl_folders folders filter = extend_all folders filter []

  unfoldable pub get_filtered_emails : Test crates → Reader (List crates.Message)
  unfolding get_folders crawl_folders
  get_filtered_emails filter = do folders ← get_folders; crawl_folders folders filter

  authenticated : ImapError ⊎ env.Session → Outcome Error env.Session
  authenticated (inl e) = err (imap e)
  authenticated (inr session) = ok session

  with_mechanism : Mailbox crates → Option (OAuthData crates) → env.Client → ImapError ⊎ env.Session
  unfolding plain_auth oauth2
  with_mechanism mailbox none client =
      env.authenticate client (codes "PLAIN") (plain_auth mailbox.email mailbox.password)
  with_mechanism mailbox (some oauth) client =
      env.authenticate client (codes "XOAUTH2") (oauth2 mailbox.email oauth.access.token)

  checked : Mailbox crates → (ImapError ⊎ Unit {0}) × env.Client → Outcome Error env.Session
  unfolding authenticated with_mechanism
  checked mailbox (inl e, client) = err (imap e)
  checked mailbox (inr done, client) = authenticated (with_mechanism mailbox mailbox.oauth2 client)

  -- `connect`, once the stream is open.
  unfoldable pub connect : Mailbox crates → env.Conn → Outcome Error env.Session
  unfolding checked
  connect mailbox stream =
      checked mailbox (env.run_command_and_check_ok (env.new stream) (codes "CAPABILITY"))
