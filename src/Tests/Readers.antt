-- ===== src/Tests/Readers.antt =====
-- The readers on a POP3 server with two messages, and on an IMAP server with an inbox and a folder of
-- sent messages.
use getemail.Base.{
  ℕ, suc, ap, String, ◌≡◌, refl, ◌⊎◌, inl, inr, Bool, true, false, List, [], ◌∷◌, Bytes, codes,
  Option, none, some, replicate, length, bytes_eq, to_ascii_uppercase, upper,
}
use getemail.Base.Decimal.{decimal, digits_onto, parse_usize, parse_digits}
use getemail.Base.Utf8.{is_utf8, utf8_from, follow}
use getemail.Pop2.Error.{ErrorKind}
use getemail.Mail.Mailbox
use getemail.Base.Exec.{Outcome, ok, err}
use getemail.Pop2.Command.{Command, stat}
use getemail.Pop2.Response.{Response, Stat}
use getemail.Pop2.Env
use getemail.Pop2.Env.{Env, IResult, done, incomplete, unknown}
use getemail.Pop2.Stream
use getemail.Pop2.Stream.Read
use getemail.Pop2.Buffer
use getemail.Pop2.Queue
use getemail.Pop2.Request
use getemail.Pop2.Command
use getemail.Pop2.Client
use getemail.Pop2.Types.Value.{value}
use getemail.Pop2.Client.{Client, transaction}
use getemail.Pop2.Client.Commands
use getemail.Mail.Mailbox.{Error, ImapError, mailbox_invalid_domain, server_not_found, get_domain}
use getemail.Mail.Filters.{filter}
use getemail.Mail.ServerMap.{Endpoints, get_by_domain}
use getemail.Mail.Pop3
use getemail.Mail.Pop3.{Pop3, Test}
use getemail.Mail.Pop3.Crawl
use getemail.Mail.Pop3.Crawl.{kept, Retrieves, get_filtered_emails-Retrieves}
use getemail.Mail.Pop3.Sound.{get_filtered_emails-eq-ok}
use getemail.Mail.Imap
use getemail.Mail.Imap.{Imap, Name}
use getemail.Mail.Imap.Crawl.{
  parses_nil, parses_cons, folders_nil, folders_cons, selects_nil, selects_taken, selects_left_out,
  get_filtered_emails-Folders,
}
use getemail.Mail.Connect.{Network, connect_any, Served, connect_any-Served}
use getemail.Tests.World.{Script, world}
use getemail.Tests.Mail.{mail, me, about_b, both}

-- The whole input is the response.
abbrev answer : Bytes → Command → IResult Response
answer [] command = incomplete unknown
answer (c ∷ cs) stat = done [] (
    Response.stat
      (record { message_count = record { inner = c ∷ cs }; size = record { inner = [] } }))
answer (c ∷ cs) command = done [] (Response.bytes (c ∷ cs))

-- Small buffers, which a test reads quickly.
abbrev post : Env
post = record world { zeroed = λ n. replicate 8 0; from_bytes = answer }

abbrev mailbox_of_two : Script
mailbox_of_two = record {
  offers = Env.received (codes "2") ∷ Env.received (codes "abc") ∷ Env.received (codes "xyz") ∷ [];
  sent = [];
}

abbrev client : Client post
client = record {
  inner = some (Stream.new post mailbox_of_two);
  capabilities = [];
  marked_as_del = [];
  greeting = none;
  read_greeting = true;
  state = transaction;
}

abbrev counted : Client post
counted = (Commands.stat post 9 client).1

abbrev first : Client post
first = (Commands.retr post 9 1 counted).1

abbrev second : Client post
second = (Commands.retr post 9 2 first).1

abbrev listing : Stat
listing = record { message_count = record { inner = codes "2" }; size = record { inner = [] } }

stat_value : (Commands.stat post 9 client).0 ≡ ok listing
unfolding Commands.retr Commands.stat Commands.expect_bytes Commands.expect_stat Commands.numbered
    Client.check_deleted Client.is_deleted Client.send_request Client.inner_mut Client.run_on
    Client.binary_search Client.sort Client.state_eq Stream.encode Stream.send_bytes Stream.decode
    Stream.new Stream.on_buffer Stream.on_queue Read.read_response Read.check_response Read.next
    Read.poll_next Read.fill_loop Read.fill Read.read_chunk Buffer.new Buffer.replace
    Buffer.ensure_capacity Buffer.return_to Buffer.unused Buffer.move_cursor Buffer.fill_unused
    Buffer.grow Buffer.reset_with Buffer.round_up Queue.new Queue.add Queue.current
    Queue.mark_current_as_done Request.new Request.from_command Request.add_arg Request.display
    Request.display_args Command.display Command.keyword_of Command.definitions Command.command_eq
    bytes_eq to_ascii_uppercase upper decimal digits_onto
stat_value = refl

first_value : (Commands.retr post 9 1 counted).0 ≡ ok (codes "abc")
unfolding Commands.retr Commands.stat Commands.expect_bytes Commands.expect_stat Commands.numbered
    Client.check_deleted Client.is_deleted Client.send_request Client.inner_mut Client.run_on
    Client.binary_search Client.sort Client.state_eq Stream.encode Stream.send_bytes Stream.decode
    Stream.new Stream.on_buffer Stream.on_queue Read.read_response Read.check_response Read.next
    Read.poll_next Read.fill_loop Read.fill Read.read_chunk Buffer.new Buffer.replace
    Buffer.ensure_capacity Buffer.return_to Buffer.unused Buffer.move_cursor Buffer.fill_unused
    Buffer.grow Buffer.reset_with Buffer.round_up Queue.new Queue.add Queue.current
    Queue.mark_current_as_done Request.new Request.from_command Request.add_arg Request.display
    Request.display_args Command.display Command.keyword_of Command.definitions Command.command_eq
    bytes_eq to_ascii_uppercase upper decimal digits_onto
first_value = refl

second_value : (Commands.retr post 9 2 first).0 ≡ ok (codes "xyz")
unfolding Commands.retr Commands.stat Commands.expect_bytes Commands.expect_stat Commands.numbered
    Client.check_deleted Client.is_deleted Client.send_request Client.inner_mut Client.run_on
    Client.binary_search Client.sort Client.state_eq Stream.encode Stream.send_bytes Stream.decode
    Stream.new Stream.on_buffer Stream.on_queue Read.read_response Read.check_response Read.next
    Read.poll_next Read.fill_loop Read.fill Read.read_chunk Buffer.new Buffer.replace
    Buffer.ensure_capacity Buffer.return_to Buffer.unused Buffer.move_cursor Buffer.fill_unused
    Buffer.grow Buffer.reset_with Buffer.round_up Queue.new Queue.add Queue.current
    Queue.mark_current_as_done Request.new Request.from_command Request.add_arg Request.display
    Request.display_args Command.display Command.keyword_of Command.definitions Command.command_eq
    bytes_eq to_ascii_uppercase upper decimal digits_onto
second_value = refl

with_state : {S A : Type 0} (r : Outcome ErrorKind A × S) {x : A} → r.0 ≡ ok x → r ≡ (ok x, r.1)
with_state r e = ap (λ x. (x, r.1)) e

two_messages : Retrieves post mail 9 1 counted (codes "abc" ∷ codes "xyz" ∷ []) second
two_messages =
    Crawl.next 1 counted first second (codes "abc") (codes "abc") (codes "xyz" ∷ [])
      (with_state (Commands.retr post 9 1 counted) first_value) refl
      (Crawl.next 2 first second second (codes "xyz") (codes "xyz") []
        (with_state (Commands.retr post 9 2 first) second_value) refl (Crawl.done 3 second))

abbrev two_subjects : List Bytes
two_subjects = codes "abc" ∷ codes "xyz" ∷ []

two_counted : value listing.message_count ≡ ok (length two_subjects)
unfolding value parse_usize parse_digits is_utf8 utf8_from follow
two_counted = refl

get_filtered_emails-Retrieves_example :
    Pop3.get_filtered_emails post mail 9
      (filter mail about_b)
      (record { client = client; mailbox_info = me })
    ≡ (ok (kept (filter mail about_b) two_subjects), record { client = second; mailbox_info = me })
get_filtered_emails-Retrieves_example =
    get_filtered_emails-Retrieves post mail 9 (filter mail about_b) client counted second me listing
      two_subjects (with_state (Commands.stat post 9 client) stat_value) two_counted two_messages

get_filtered_emails-eq-ok_example :
    (stat : Stat) × (c1 : Client post) × (msgs : List Bytes) × (Commands.stat post 9 client
      ≡ (ok stat, c1))
    × (value stat.message_count ≡ ok (length msgs))
    × Retrieves post mail 9 1 c1 msgs second
    × (kept (filter mail about_b) two_subjects ≡ kept (filter mail about_b) msgs)
get_filtered_emails-eq-ok_example =
    get_filtered_emails-eq-ok post mail 9 (filter mail about_b)
      (record { client = client; mailbox_info = me })
      (record { client = second; mailbox_info = me }) (kept (filter mail about_b) two_subjects)
      (get_filtered_emails-Retrieves post mail 9 (filter mail about_b) client counted second me
        listing two_subjects (with_state (Commands.stat post 9 client) stat_value) two_counted
        two_messages)

pub data Attribute : Type 0 where
  all_mail sent_mail draft_mail : Attribute

abbrev folder_of : String → Attribute → Name Attribute
folder_of name attribute = record { name = codes name; attributes = attribute ∷ [] }

abbrev inbox : List (ImapError ⊎ Option Bytes)
inbox = inr (some (codes "abc")) ∷ inr none ∷ []

abbrev pub says_sent : Attribute → Bool
says_sent sent_mail = true
says_sent _ = false

abbrev pub says_drafts : Attribute → Bool
says_drafts draft_mail = true
says_drafts _ = false

-- A session is the number of calls; an attribute may tell that the folder is for sent messages or drafts.
abbrev pub post_office : Imap
post_office = record {
  Session = ℕ;
  Conn = ℕ;
  Client = ℕ;
  new = λ n. n;
  run_command_and_check_ok = λ c command. (inr tt, c);
  authenticate = λ c mechanism response. inr c;
  select = λ s folder. (inr 2, suc s);
  fetch = λ s sequence query. (inr inbox, suc s);
  Attribute = Attribute;
  is_sent = says_sent;
  is_drafts = says_drafts;
  list = λ s reference pattern'. (
    inr (
        inr (folder_of "INBOX" all_mail)
        ∷ inr (folder_of "Sent" sent_mail)
        ∷ inr (folder_of "Drafts" draft_mail)
        ∷ []),
    suc s,
  );
}

get_filtered_emails-Folders_example :
    Imap.get_filtered_emails post_office mail (filter mail about_b) 0
    ≡ (ok (kept (filter mail about_b) (codes "abc" ∷ [] ∷ [])), 3)
unfolding Imap.is_ok_folder Imap.unwrap_or_else
get_filtered_emails-Folders_example =
    get_filtered_emails-Folders post_office mail (filter mail about_b) 0 1 3
      (folder_of "INBOX" all_mail ∷ folder_of "Sent" sent_mail ∷ folder_of "Drafts" draft_mail ∷ [])
      (codes "INBOX" ∷ []) (codes "abc" ∷ [] ∷ []) refl
      (selects_taken _ _ _ (refl, refl, tt)
        (selects_left_out _ _ _ (inl (inl refl))
          (selects_left_out _ _ _ (inl (inr refl)) selects_nil)))
      (folders_cons (codes "INBOX") [] 1 2 3 3 2 inbox (codes "abc" ∷ [] ∷ []) [] refl refl
        (parses_cons _ _ _ _ refl (parses_cons _ _ _ _ refl parses_nil)) (folders_nil 3))

abbrev internet : Network post post_office
internet = record {
  World = ℕ;
  Proxy = ℕ;
  open_pop3 = λ endpoint proxy w. (ok mailbox_of_two, suc w);
  open_imap = λ endpoint proxy w. (err Mailbox.resolve_dns, suc w);
}

connect_any-Served_example :
    ((get_domain mail me ≡ none)
      × (connect_any post post_office mail internet 9 me none both 0
          ≡ (err (mailbox_invalid_domain me.email), 0)))
    ⊎ ((domain : Bytes) × (get_domain mail me ≡ some domain)
        × (((get_by_domain both domain ≡ none)
              × (connect_any post post_office mail internet 9 me none both 0
                  ≡ (err (server_not_found domain), 0)))
            ⊎ ((entry : Endpoints) × (get_by_domain both domain ≡ some entry)
                × Served post post_office mail internet 9 me none entry 0
                    (connect_any post post_office mail internet 9 me none both 0))))
connect_any-Served_example = connect_any-Served post post_office mail internet 9 me none both 0
