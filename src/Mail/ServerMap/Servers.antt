-- ===== src/Mail/ServerMap/Servers.antt =====
-- The list of servers that `servers` of src/server_map.rs makes of a map, and the map that is made of
-- this list again.
use getemail.Base.{
  ◌≡◌, refl, sym, ◌↔◌, inl, inr, Bool, true, false, ◌||◌, List, [], ◌∷◌, ◌++◌, Bytes, Option, none,
  some, bytes_eq, bytes_eq_iff, arith, Bool-cases, ap, ◌∙◌, if◌then◌else◌, map,
}
use getemail.Mail.ServerMap.{
  Endpoints, pop3, imap, full, ProtocolEndpoint, endpoint_eq, endpoints_eq, Server, ServerMap,
  insert, get, insert_all, add_server, get_by_domain, note, note_all, servers, new,
}
use getemail.Mail.ServerMap.Lookup.{serves, get_by_domain-add_server, get-insert}

-- No key twice.
abbrev pub IsMap : List (Bytes × Endpoints) → Type 0
IsMap [] = Unit {0}
IsMap ((k, v) ∷ entries) = (get k entries ≡ none) × IsMap entries

endpoint_eq_iff : (a b : ProtocolEndpoint) → (endpoint_eq a b ≡ true) ↔ (a ≡ b)
unfolding endpoint_eq
endpoint_eq_iff a b = ground (arith, bytes_eq_iff a.domain b.domain)

endpoints_eq_iff : (a b : Endpoints) → (endpoints_eq a b ≡ true) ↔ (a ≡ b)
unfolding endpoints_eq
endpoints_eq_iff (pop3 a) (pop3 b) = ground (arith, endpoint_eq_iff a b)
endpoints_eq_iff (imap a) (imap b) = ground (arith, endpoint_eq_iff a b)
endpoints_eq_iff (full a c) (full b d) = ground (arith, endpoint_eq_iff a b, endpoint_eq_iff c d)
endpoints_eq_iff _ _ = ground arith

-- One server after the other is added.
abbrev pub add_servers : ServerMap → List Server → ServerMap
add_servers m [] = m
add_servers m (server ∷ servers) = add_servers (add_server m server) servers

-- The endpoints of the last server that serves a domain.
found : Bytes → List (Endpoints × Server) → Option Endpoints → Option Endpoints
found d [] older = older
found d ((key, server) ∷ rest) older =
    found d rest (if serves d server.domains then some server.endpoint else older)

any_serves : Bytes → List (Endpoints × Server) → Bool
any_serves d [] = false
any_serves d ((key, server) ∷ rest) = serves d server.domains || any_serves d rest

Keyed : List (Endpoints × Server) → Type 0
Keyed [] = Unit {0}
Keyed ((key, server) ∷ rest) = (server.endpoint ≡ key) × Keyed rest

get-add_servers :
    (list : List (Endpoints × Server)) (m : ServerMap) (d : Bytes)
    → get_by_domain (add_servers m (map (λ (key, server). server) list)) d
      ≡ found d list (get_by_domain m d)
unfolding found
get-add_servers [] m d = refl
get-add_servers ((key, server) ∷ rest) m d =
    get-add_servers rest (add_server m server) d
    ∙ ap (found d rest) (get_by_domain-add_server m server d)

found_unserved :
    (d : Bytes) (list : List (Endpoints × Server)) (older : Option Endpoints)
    → any_serves d list ≡ false
    → found d list older ≡ older
unfolding found any_serves
found_unserved d [] older h = refl
found_unserved d ((key, server) ∷ rest) older h = ground (arith, found_unserved d rest older)

serves-append :
    (d domain : Bytes) (domains : List Bytes)
    → serves d (domains ++ domain ∷ []) ≡ (serves d domains || bytes_eq domain d)
serves-append d domain [] = ground arith
serves-append d domain (x ∷ domains) = ground (arith, serves-append d domain domains)

any_serves-note :
    (d domain : Bytes) (e : Endpoints) (list : List (Endpoints × Server))
    → any_serves d (note domain e list) ≡ (bytes_eq domain d || any_serves d list)
unfolding any_serves note
any_serves-note d domain e [] = ground arith
any_serves-note d domain e ((key, server) ∷ rest) =
    ground (arith, any_serves-note d domain e rest, serves-append d domain server.domains)

Keyed-note :
    (domain : Bytes) (e : Endpoints) (list : List (Endpoints × Server))
    → Keyed list
    → Keyed (note domain e list)
unfolding Keyed note
Keyed-note domain e [] h = ground arith
Keyed-note domain e ((key, server) ∷ rest) (h, hs) = ground (arith, Keyed-note domain e rest hs)

found-note :
    (d domain : Bytes) (e : Endpoints) (list : List (Endpoints × Server)) (older : Option Endpoints)
    → Keyed list
    → any_serves domain list ≡ false
    → found d (note domain e list) older
      ≡ (if bytes_eq domain d then some e else found d list older)
unfolding found note Keyed any_serves
found-note d domain e [] older keyed free = ground arith
found-note d domain e ((key, server) ∷ rest) older (k, keyed) free = ground (
  arith,
  endpoints_eq_iff key e,
  bytes_eq_iff domain d,
  found_unserved domain rest (some server.endpoint),
  serves-append d domain server.domains,
  found-note d domain e rest (if serves d server.domains then some server.endpoint else older)
      keyed,
)

combine : Option Endpoints → Option Endpoints → Option Endpoints
combine none older = older
combine (some e) older = some e

-- The entries still to come are for domains that no server has yet.
record Fresh (entries : List (Bytes × Endpoints)) (list : List (Endpoints × Server)) : Type 0 where
  apart : (d : Bytes) → any_serves d list ≡ true → get d entries ≡ none

unserved :
    (domain : Bytes) (e : Endpoints) (entries : List (Bytes × Endpoints))
    (list : List (Endpoints × Server))
    → Fresh ((domain, e) ∷ entries) list
    → any_serves domain list ≡ false
unfolding get
unserved domain e entries list fresh = elim (Bool-cases (any_serves domain list)) [
  | inl h ↦ absurd (ground (arith, fresh.apart domain h, (bytes_eq_iff domain domain).1 refl))
  | inr h ↦ h
]

Fresh-note :
    (domain : Bytes) (e : Endpoints) (entries : List (Bytes × Endpoints))
    (list : List (Endpoints × Server))
    → get domain entries ≡ none
    → Fresh ((domain, e) ∷ entries) list
    → Fresh entries (note domain e list)
unfolding get
Fresh-note domain e entries list once fresh = record {
  apart = λ d h. elim (Bool-cases (bytes_eq domain d)) [
    | inl same ↦ ap (λ x. get x entries) (sym ((bytes_eq_iff domain d).0 same)) ∙ once
    | inr other ↦
        ground
          (arith, other, fresh.apart d (ground (arith, h, other, any_serves-note d domain e list)))
  ];
}

found-note_all :
    (d : Bytes) (entries : List (Bytes × Endpoints)) (list : List (Endpoints × Server))
    → IsMap entries
    → Keyed list
    → Fresh entries list
    → found d (note_all entries list) none ≡ combine (get d entries) (found d list none)
unfolding note_all get combine
found-note_all d [] list is_map keyed fresh = refl
found-note_all d ((domain, e) ∷ entries) list (once, is_map) keyed fresh = ground (
  arith,
  found-note_all d entries (note domain e list) is_map (Keyed-note domain e list keyed)
      (Fresh-note domain e entries list once fresh),
  found-note d domain e list none keyed (unserved domain e entries list fresh),
  once,
  bytes_eq_iff domain d,
)

-- The servers of a map, added one after the other to an empty map, give each domain the endpoints
-- that it had. The entries of the map have each domain once.
pub get_by_domain-servers :
    (m : ServerMap) (d : Bytes)
    → IsMap m.map
    → get_by_domain (add_servers new (servers m)) d ≡ get_by_domain m d
unfolding servers new get_by_domain found any_serves combine Keyed
get_by_domain-servers m d is_map =
    get-add_servers (note_all m.map []) new d
    ∙ (found-note_all d m.map [] is_map tt (record { apart = λ x h. absurd (cc) })
        ∙ combine_none (get d m.map))
  where
    combine_none : (o : Option Endpoints) → combine o none ≡ o
    combine_none none = refl
    combine_none (some e) = refl

IsMap-insert :
    (k : Bytes) (v : Endpoints) (entries : List (Bytes × Endpoints))
    → IsMap entries
    → IsMap (insert k v entries)
unfolding insert get
IsMap-insert k v [] h = ground arith
IsMap-insert k v ((key, value) ∷ entries) (once, h) = ground (
  arith,
  IsMap-insert k v entries h,
  get-insert k v entries key,
  bytes_eq_iff key k,
  bytes_eq_iff k key,
)

IsMap-insert_all :
    (domains : List Bytes) (e : Endpoints) (entries : List (Bytes × Endpoints))
    → IsMap entries
    → IsMap (insert_all domains e entries)
unfolding insert_all
IsMap-insert_all [] e entries h = h
IsMap-insert_all (domain ∷ domains) e entries h =
    IsMap-insert_all domains e (insert domain e entries) (IsMap-insert domain e entries h)

-- However servers are added to an empty map, each domain stands in it once.
pub add_servers-IsMap : (list : List Server) → IsMap (add_servers new list).map
unfolding new add_server
add_servers-IsMap list = from new list tt
  where
    from : (m : ServerMap) (list : List Server) → IsMap m.map → IsMap (add_servers m list).map
    from m [] h = h
    from m (server ∷ list) h =
        from (add_server m server) list (IsMap-insert_all server.domains server.endpoint m.map h)
