-- ===== src/Mail/ServerMap.antt =====
-- src/server_map.rs: which servers serve the mailboxes of a domain. A `HashMap` is the list of its
-- entries, in the order in which it is iterated, whichever that is. A leaked
-- `&'static Endpoints` is the value.
pub mod Lookup
pub mod Servers
use getemail.Base.{
  ℕ, Bool, true, false, ◌&&◌, ◌||◌, List, [], ◌∷◌, ◌++◌, Bytes, Option, none, some, bytes_eq, ◌==◌,
  if◌then◌else◌, map,
}

pub record ProtocolEndpoint : Type 0 where
  pub domain : Bytes
  pub port : ℕ

pub data Endpoints : Type 0 where
  pop3 : ProtocolEndpoint → Endpoints
  imap : ProtocolEndpoint → Endpoints
  full : ProtocolEndpoint → ProtocolEndpoint → Endpoints

unfoldable pub get_pop3 : Endpoints → Option ProtocolEndpoint
get_pop3 (pop3 e) = some e
get_pop3 (imap e) = none
get_pop3 (full e i) = some e

unfoldable pub get_imap : Endpoints → Option ProtocolEndpoint
get_imap (imap e) = some e
get_imap (full p e) = some e
get_imap (pop3 e) = none

-- The derived `PartialEq`.
endpoint_eq : ProtocolEndpoint → ProtocolEndpoint → Bool
unfolding bytes_eq
endpoint_eq a b = bytes_eq a.domain b.domain && a.port == b.port

unfoldable pub endpoints_eq : Endpoints → Endpoints → Bool
unfolding endpoint_eq
endpoints_eq (pop3 a) (pop3 b) = endpoint_eq a b
endpoints_eq (imap a) (imap b) = endpoint_eq a b
endpoints_eq (full a c) (full b d) = endpoint_eq a b && endpoint_eq c d
endpoints_eq _ _ = false

pub record Server : Type 0 where
  pub domains : List Bytes
  pub endpoint : Endpoints

pub record ServerMap : Type 0 where
  pub map : List (Bytes × Endpoints)

-- `HashMap::insert` and `HashMap::get`.
unfoldable pub insert : Bytes → Endpoints → List (Bytes × Endpoints) → List (Bytes × Endpoints)
unfolding bytes_eq
insert k v [] = (k, v) ∷ []
insert k v ((key, value) ∷ rest) =
    let later = insert k v rest in if bytes_eq key k then (key, v) ∷ rest else (key, value) ∷ later

unfoldable pub get : Bytes → List (Bytes × Endpoints) → Option Endpoints
unfolding bytes_eq
get k [] = none
get k ((key, value) ∷ rest) = if bytes_eq key k then some value else get k rest

unfoldable pub new : ServerMap
new = record { map = [] }

unfoldable pub insert_all :
    List Bytes → Endpoints → List (Bytes × Endpoints) → List (Bytes × Endpoints)
unfolding insert
insert_all [] endpoint entries = entries
insert_all (domain ∷ domains) endpoint entries =
    insert_all domains endpoint (insert domain endpoint entries)

unfoldable pub add_server : ServerMap → Server → ServerMap
unfolding insert_all
add_server m server = record { map = insert_all server.domains server.endpoint m.map }

unfoldable pub get_by_domain : ServerMap → Bytes → Option Endpoints
unfolding get
get_by_domain m domain = get domain m.map

-- The entry of `reversed_map` for an endpoint: its domain is added, or a new server is made.
unfoldable pub note : Bytes → Endpoints → List (Endpoints × Server) → List (Endpoints × Server)
unfolding endpoints_eq
note domain endpoint [] = (endpoint, record { domains = domain ∷ []; endpoint = endpoint }) ∷ []
note domain endpoint ((key, server) ∷ rest) =
    let later = note domain endpoint rest in
    if endpoints_eq key endpoint
    then (key, record server { domains = server.domains ++ domain ∷ [] }) ∷ rest
    else (key, server) ∷ later

unfoldable pub note_all :
    List (Bytes × Endpoints) → List (Endpoints × Server) → List (Endpoints × Server)
unfolding note
note_all [] reversed_map = reversed_map
note_all ((domain, endpoint) ∷ entries) reversed_map =
    note_all entries (note domain endpoint reversed_map)

unfoldable pub servers : ServerMap → List Server
unfolding note_all
servers m = map (λ (endpoint, server). server) (note_all m.map [])
