-- ===== src/Mail/Global.antt =====
-- `ArcMap` of src/server_map.rs and `connect_any_global_map` of src/lib.rs: a map of servers behind a lock, of
-- which the program has one. A lock that is awaited is obtained, and is held until the call ends.
use getemail.Base.{ℕ, Option}
use getemail.Base.Exec.{Exec, gets, modify}
use getemail.Pop2.Env.{Env}
use getemail.Mail.Crates.{Crates}
use getemail.Mail.Mailbox.{Mailbox, Error}
use getemail.Mail.ServerMap
use getemail.Mail.ServerMap.{ServerMap}
use getemail.Mail.Imap.{Imap}
use getemail.Mail.Connect.{Network, EmailReader, connect_any}

-- The clones of an `ArcMap` share their map.
pub record ArcMap : Type 0 where
  pub inner : ServerMap

unfoldable pub new : ArcMap
new = record { inner = ServerMap.new }

module _ {E : Type 0} where
  unfoldable pub read : Exec E ArcMap ServerMap
  read = gets (λ m. m.inner)

  -- What the holder of the lock does with the map.
  unfoldable pub write : (ServerMap → ServerMap) → Exec E ArcMap Unit
  write change = modify (λ m. record { inner = change m.inner })

-- The state of the program outside of the call.
pub record Program (World : Type 0) : Type 0 where
  pub global : ArcMap
  pub world : World

module _ (env : Env) (imap_env : Imap) (crates : Crates) (net : Network env imap_env)
    (fuel : ℕ) where
  unfoldable pub connect_any_global_map :
      Mailbox crates
      → Option net.Proxy
      → Exec Error (Program net.World) (EmailReader env imap_env crates)
  unfolding read
  connect_any_global_map mailbox proxy program =
      let (result, world) =
        connect_any env imap_env crates net fuel mailbox proxy program.global.inner program.world in
      (result, record program { world = world })
