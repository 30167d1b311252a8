-- ===== src/Mail/ServerMap/Lookup.antt =====
-- What a lookup in the map of src/server_map.rs finds after a server was added.
use getemail.Base.{
  ◌≡◌, refl, Bool, false, ◌||◌, List, [], ◌∷◌, Bytes, some, bytes_eq, bytes_eq_iff, arith,
  if◌then◌else◌,
}
use getemail.Mail.ServerMap.{
  Endpoints, Server, ServerMap, insert, get, insert_all, add_server, get_by_domain,
}

abbrev pub serves : Bytes → List Bytes → Bool
serves d [] = false
serves d (domain ∷ domains) = bytes_eq domain d || serves d domains

pub get-insert :
    (k : Bytes) (v : Endpoints) (m : List (Bytes × Endpoints)) (d : Bytes)
    → get d (insert k v m) ≡ (if bytes_eq k d then some v else get d m)
unfolding get insert
get-insert k v [] d = ground arith
get-insert k v ((key, value) ∷ m) d =
    ground (arith, get-insert k v m d, bytes_eq_iff key k, bytes_eq_iff key d, bytes_eq_iff k d)

get-insert_all :
    (domains : List Bytes) (e : Endpoints) (m : List (Bytes × Endpoints)) (d : Bytes)
    → get d (insert_all domains e m) ≡ (if serves d domains then some e else get d m)
unfolding insert_all
get-insert_all [] e m d = refl
get-insert_all (domain ∷ domains) e m d =
    ground (arith, get-insert_all domains e (insert domain e m) d, get-insert domain e m d)

-- A server is found under each of its domains, in place of an older one; the others stay.
pub get_by_domain-add_server :
    (m : ServerMap) (server : Server) (d : Bytes)
    → get_by_domain (add_server m server) d
      ≡ (if serves d server.domains then some server.endpoint else get_by_domain m d)
unfolding get_by_domain add_server
get_by_domain-add_server m server d = get-insert_all server.domains server.endpoint m.map d
