-- ===== src/Mail/Pop3/Served.antt =====
-- `get_filtered_emails` of src/pop3_protocol.rs against a server that answers after RFC 1939.
use getemail.Base.{
  arith, ℕ, suc, ◌≡◌, ◌<◌, refl, ap, ◌∙◌, inl, List, [], ◌∷◌, Bytes, codes, some, length,
}
use getemail.Base.Decimal.{usize_limit}
use getemail.Base.Exec.{ok}
use getemail.Pop2.Command
use getemail.Pop2.Request
use getemail.Pop2.Types.Value
use getemail.Pop2.Types.Value.{value-decimal}
use getemail.Pop2.Response.{Stat}
use getemail.Pop2.Env.{Env, LawfulBuffers}
use getemail.Pop2.Client.{Client, transaction, check_deleted, is_deleted, sort, binary_search}
use getemail.Pop2.Client.Commands
use getemail.Pop2.Client.Commands.{numbered, expect_bytes, expect_stat}
use getemail.Pop2.Client.Talks.{Exchange, Talking, Talking-same, bound_after, send_request-Talking}
use getemail.Pop2.Nom.{Nom}
use getemail.Pop2.Nom.Laws.{LawfulPrimitives, LawfulCombinators}
use getemail.Pop2.Parser.{with_parser}
use getemail.Pop2.Parser.Messages.{content_of}
use getemail.Pop2.Parser.Listings.{scanned}
use getemail.Pop2.Parser.Answers.{mail}
use getemail.Pop2.Parser.Answers.Numbers.{maildrop, drop_line}
use getemail.Mail.Crates.{Crates}
use getemail.Mail.Mailbox.{Mailbox}
use getemail.Mail.Pop3.{Test, get_filtered_emails}
use getemail.Mail.Pop3.Crawl.{kept, Retrieves, done, next, get_filtered_emails-Retrieves}

-- A mail of the server: the text of the status, the lines, and the spaces behind the status.
pub record Mail : Type 0 where
  pub title : Bytes
  pub line : Bytes
  pub lines : List Bytes
  pub spaces : Bytes

abbrev pub content : Mail → Bytes
content m = content_of m.line m.lines

abbrev pub counting : ℕ → ℕ → Exchange
counting count octets = record {
  request = Request.from_command Command.stat;
  spaces = codes " ";
  answer = maildrop count octets;
}

abbrev pub retrieval : ℕ → Mail → Exchange
retrieval id m = record {
  request = numbered Command.retr (some id);
  spaces = m.spaces;
  answer = mail m.title m.line m.lines;
}

abbrev pub retrievals : ℕ → List Mail → List Exchange
retrievals id [] = []
retrievals id (m ∷ ms) = retrieval id m ∷ retrievals (suc id) ms

-- STAT, and RETR for each mail, from number 1 on.
abbrev pub maildrop_conversation : ℕ → List Mail → List Exchange
maildrop_conversation octets ms = counting (length ms) octets ∷ retrievals 1 ms

module _ (crates : Crates) where
  -- Each mail is parsed as the message at its place.
  abbrev pub ParsedAs : List Mail → List crates.Message → Type 0
  ParsedAs [] [] = Unit {0}
  ParsedAs (m ∷ ms) (msg ∷ msgs) = (crates.parse (content m) ≡ some msg) × ParsedAs ms msgs
  ParsedAs _ _ = ⊥

  pub length-ParsedAs :
      (ms : List Mail) (msgs : List crates.Message) → ParsedAs ms msgs → length ms ≡ length msgs
  length-ParsedAs [] [] h = refl
  length-ParsedAs [] (msg ∷ msgs) h = absurd h
  length-ParsedAs (m ∷ ms) [] h = absurd h
  length-ParsedAs (m ∷ ms) (msg ∷ msgs) h = ap suc (length-ParsedAs ms msgs h.1)

module _ (nom : Nom) (prims : LawfulPrimitives nom) (combs : LawfulCombinators nom) (env : Env)
    (laws : LawfulBuffers env) (fuel : ℕ) where
  -- A client in the state Transaction, without deleted messages.
  record Reader (bound : ℕ) (xs : List Exchange) (c : Client (with_parser env nom)) : Type 0 where
    talking : Talking (with_parser env nom) fuel bound xs c
    state : c.state ≡ transaction
    none_marked : c.marked_as_del ≡ []

  stat-Reader :
      (count octets bound : ℕ) (xs : List Exchange) (c : Client (with_parser env nom))
      → count < usize_limit
      → Reader bound (counting count octets ∷ xs) c
      → (stat : Stat) × (c' : Client (with_parser env nom)) × (Commands.stat
            (with_parser env nom)
            fuel
            c
          ≡ (ok stat, c'))
        × (Value.value stat.message_count ≡ ok count)
        × Reader (bound_after bound (counting count octets)) xs c'
  unfolding Commands.stat expect_stat
  stat-Reader count octets bound xs c few r =
      let (s, sent, talking) =
        send_request-Talking nom prims combs env laws fuel (counting count octets) xs bound c
          r.talking (inl r.state) in
      (
        scanned (drop_line count octets),
        record c { inner = some s },
        rw sent refl,
        value-decimal count few,
        record { talking = talking; state = r.state; none_marked = r.none_marked },
      )

  retr-Reader :
      (id bound : ℕ) (m : Mail) (xs : List Exchange) (c : Client (with_parser env nom))
      → Reader bound (retrieval id m ∷ xs) c
      → (c' : Client (with_parser env nom)) × (Commands.retr (with_parser env nom) fuel id c
          ≡ (ok (content m), c'))
        × Reader (bound_after bound (retrieval id m)) xs c'
  unfolding Commands.retr check_deleted is_deleted sort binary_search expect_bytes
  retr-Reader id bound m xs c r =
      let (s, sent, talking) =
        send_request-Talking nom prims combs env laws fuel (retrieval id m) xs bound
          (record c { marked_as_del = [] })
          (Talking-same nom prims combs env laws fuel (retrieval id m ∷ xs) bound c
            (record c { marked_as_del = [] }) refl r.talking)
          (inl r.state) in
      (
        record c { inner = some s; marked_as_del = [] },
        ground (arith, r.none_marked, sent),
        record { talking = talking; state = r.state; none_marked = refl },
      )

  retrievals-Retrieves :
      (crates : Crates) (id bound : ℕ) (ms : List Mail) (msgs : List crates.Message)
      (c : Client (with_parser env nom))
      → Reader bound (retrievals id ms) c
      → ParsedAs crates ms msgs
      → (c' : Client (with_parser env nom)) × Retrieves
          (with_parser env nom)
          crates
          fuel
          id
          c
          msgs
          c'
  retrievals-Retrieves crates id bound [] [] c r p = (c, done id c)
  retrievals-Retrieves crates id bound [] (msg ∷ msgs) c r p = absurd p
  retrievals-Retrieves crates id bound (m ∷ ms) [] c r p = absurd p
  retrievals-Retrieves crates id bound (m ∷ ms) (msg ∷ msgs) c r p =
      let (c1, got, r1) = retr-Reader id bound m (retrievals (suc id) ms) c r in
      let (c2, rest) = retrievals-Retrieves crates (suc id) _ ms msgs c1 r1 p.1 in
      (c2, next id c c1 c2 (content m) msg msgs got p.0 rest)

  pub get_filtered_emails-served :
      (crates : Crates) (filter : Test crates) (octets bound : ℕ) (ms : List Mail)
      (msgs : List crates.Message) (c : Client (with_parser env nom)) (mailbox : Mailbox crates)
      → c.state ≡ transaction
      → c.marked_as_del ≡ []
      → length ms < usize_limit
      → Talking (with_parser env nom) fuel bound (maildrop_conversation octets ms) c
      → ParsedAs crates ms msgs
      → (c' : Client (with_parser env nom)) × (get_filtered_emails
            (with_parser env nom)
            crates
            fuel
            filter
            (record { client = c; mailbox_info = mailbox })
          ≡ (ok (kept filter msgs), record { client = c'; mailbox_info = mailbox }))
  get_filtered_emails-served crates filter octets bound ms msgs c mailbox state none_marked few
        talking p =
      let (stat, c1, counted, number, r) =
        stat-Reader (length ms) octets bound (retrievals 1 ms) c few
          (record { talking = talking; state = state; none_marked = none_marked }) in
      let (c2, all) = retrievals-Retrieves crates 1 _ ms msgs c1 r p in
      (
        c2,
        get_filtered_emails-Retrieves (with_parser env nom) crates fuel filter c c1 c2 mailbox stat
            msgs counted (number ∙ ap ok (length-ParsedAs crates ms msgs p)) all,
      )
