-- ===== src/Tests/Mail.antt =====
-- The crate getemail with messages that are bare subjects, a POP3 server with two messages, and an
-- IMAP server with an inbox and a folder of sent messages.
use getemail.Base.{
  bytes_eq, ℕ, String, ◌≡◌, ◌⊎◌, true, [], ◌∷◌, ◌++◌, Bytes, codes, none, some, ltb, if◌then◌else◌,
  ◌↔◌, arith,
}
use getemail.Base.Decimal.{decimal}
use getemail.Base.Exec.{ok}
use getemail.Pop2.Types.Value.{value, value-decimal}
use getemail.Mail.Crates.{Crates}
use getemail.Mail.Mailbox.{Mailbox, get_domain, get_domain_lem, Lacks}
use getemail.Mail.Filters.{Filter, and, subject_contains, filter}
use getemail.Mail.Filters.Matches.{Matches, filter-Matches}
use getemail.Mail.ServerMap
use getemail.Mail.ServerMap.{
  ProtocolEndpoint, Endpoints, full, pop3, Server, ServerMap, add_server, get_by_domain, servers,
}
use getemail.Mail.ServerMap.Lookup.{serves, get_by_domain-add_server}
use getemail.Mail.ServerMap.Servers.{IsMap, add_servers, get_by_domain-servers, add_servers-IsMap}

abbrev pub mail : Crates
mail = record {
  DateTime = ℕ;
  later = λ a b. ltb b a;
  Timestamp = ℕ;
  from_timestamp = some;
  Message = Bytes;
  Address = Bytes;
  parse = some;
  subject = some;
  sender = λ msg. none;
  address_contains = λ a s. true;
  date = λ msg. none;
  body_html = λ msg n. some msg;
  Regex = Bytes;
  is_match = λ r text. bytes_eq r text;
}

abbrev pub me : Mailbox mail
me = record { email = codes "me@b.c"; password = codes "secret"; oauth2 = none }

get_domain_lem_example :
    ((get_domain mail me ≡ none) × Lacks b'@' me.email)
    ⊎ ((user : Bytes) × (domain : Bytes) × (get_domain mail me ≡ some domain)
        × (me.email ≡ user ++ b'@' ∷ domain)
        × Lacks b'@' user)
get_domain_lem_example = get_domain_lem mail me

abbrev pub about_b : Filter mail
about_b = and (subject_contains (codes "b")) (subject_contains (codes "a"))

filter-Matches_example :
    (filter mail about_b (codes "abc") ≡ true) ↔ Matches mail about_b (codes "abc")
filter-Matches_example = filter-Matches mail about_b (codes "abc")

abbrev at : String → ProtocolEndpoint
at name = record { domain = codes name; port = 993 }

abbrev one : Server
one = record { domains = codes "b.c" ∷ codes "d.e" ∷ []; endpoint = full (at "p") (at "i") }

abbrev two : Server
two = record { domains = codes "d.e" ∷ codes "f.g" ∷ []; endpoint = pop3 (at "q") }

abbrev pub both : ServerMap
both = add_servers ServerMap.new (one ∷ two ∷ [])

get_by_domain-add_server_example :
    get_by_domain (add_server (add_server ServerMap.new one) two) (codes "d.e") ≡ (
      if serves (codes "d.e") two.domains
      then some two.endpoint
      else get_by_domain (add_server ServerMap.new one) (codes "d.e"))
get_by_domain-add_server_example =
    get_by_domain-add_server (add_server ServerMap.new one) two (codes "d.e")

add_servers-IsMap_example : IsMap both.map
add_servers-IsMap_example = add_servers-IsMap (one ∷ two ∷ [])

get_by_domain-servers_example :
    get_by_domain (add_servers ServerMap.new (servers both)) (codes "d.e")
    ≡ get_by_domain both (codes "d.e")
get_by_domain-servers_example =
    get_by_domain-servers both (codes "d.e") (add_servers-IsMap (one ∷ two ∷ []))

value-decimal_example : value (record { inner = decimal 1024 }) ≡ ok 1024
value-decimal_example = value-decimal 1024 (omega arith)
