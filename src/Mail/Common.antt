-- ===== src/Mail/Common.antt =====
-- src/common.rs: a connection over TLS to a server, through a proxy or by DNS. The sockets, the resolver, the
-- proxy and the TLS library are parameters; the certificates of `create_connector` belong to the last one.
use getemail.Base.{
  ℕ, ◌≡◌, ◌≢◌, ◌↔◌, ◌⊎◌, inl, inr, refl, ap, Bool, true, List, [], ◌∷◌, Bytes, Option, none, some,
  Option-cases,
}
use getemail.Base.Exec.{
  continue, Outcome, ok, err, panic, stuck, Exec, pure, fail, abort, ◌>>=◌, ◌>>◌,
}
use getemail.Pop2.Error.{IoError}
use getemail.Pop2.Env.{Env}
use getemail.Mail.Mailbox.{Error, ProxyError, resolve_dns}
use getemail.Mail.Imap.{Imap}
use getemail.Mail.Connect.{Network}

-- proxied, tokio::net and tokio_rustls, with the boxed `Conn` of the caller. A boxed `Conn` that TLS is spoken
-- over is a `Tunnel`.
pub record Sockets (Conn : Type 0) : Type 1 where
  pub World : Type 0
  pub Proxy : Type 0
  pub Tunnel : Type 0
  pub SocketAddr : Type 0
  pub TcpStream : Type 0
  pub ServerName : Type 0
  pub connect_tcp : Proxy → Bytes → ℕ → World → (ProxyError ⊎ Tunnel) × World
  pub lookup_host : Bytes → ℕ → World → (IoError ⊎ List SocketAddr) × World
  pub set_port : SocketAddr → ℕ → SocketAddr
  pub connect : SocketAddr → World → (IoError ⊎ TcpStream) × World
  pub set_nodelay : TcpStream → Bool → World → (IoError ⊎ Unit {0}) × World
  pub set_linger : TcpStream → Option ℕ → World → (IoError ⊎ Unit {0}) × World
  pub boxed : TcpStream → Tunnel
  pub server_name : Bytes → Option ServerName
  pub connect_tls : ServerName → Tunnel → World → (IoError ⊎ Conn) × World

-- `?`, on an error that is made into an `Error`.
abbrev settled : {E A W : Type 0} → (E → Error) → (E ⊎ A) × W → Outcome Error A × W
settled into (inl e, w) = (err (into e), w)
settled into (inr a, w) = (ok a, w)

abbrev tried : {E A W : Type 0} → (E → Error) → (W → (E ⊎ A) × W) → Exec Error W A
tried into m w = settled into (m w)

settled_no_panic :
    {E A W : Type 0} (into : E → Error) (r : (E ⊎ A) × W) → (settled into r).0 ≢ panic
settled_no_panic into (inl e, w) h = cc
settled_no_panic into (inr a, w) h = cc

module _ {Conn : Type 0} (s : Sockets Conn) where
  -- `resolved.next().ok_or(Error::ResolveDns)`
  next_address : List s.SocketAddr → Exec Error s.World s.SocketAddr
  next_address [] = fail resolve_dns
  next_address (mail_socket ∷ resolved) = pure mail_socket

  tuned : s.TcpStream → Exec Error s.World s.Tunnel
  tuned stream = do
    tried Error.socket (s.set_nodelay stream true)
    tried Error.socket (s.set_linger stream none)
    pure (s.boxed stream)

  reached : ℕ → s.SocketAddr → Exec Error s.World s.Tunnel
  unfolding tuned
  reached port mail_socket = do
    stream ← tried Error.socket (s.connect (s.set_port mail_socket port))
    tuned stream

  unfoldable pub tunnel : Bytes → ℕ → Option s.Proxy → Exec Error s.World s.Tunnel
  unfolding next_address reached
  tunnel domain port (some proxy) = tried Error.proxy (s.connect_tcp proxy domain port)
  tunnel domain port none = do
    resolved ← tried Error.socket (s.lookup_host domain port)
    mail_socket ← next_address resolved
    reached port mail_socket

  -- `unwrap`
  unwrap : {A : Type 0} → Option A → Exec Error s.World A
  unwrap none = abort
  unwrap (some a) = pure a

  unfoldable pub connect_maybe_proxied_stream_tls :
      Bytes → ℕ → Option s.Proxy → Exec Error s.World Conn
  unfolding tunnel unwrap
  connect_maybe_proxied_stream_tls domain port proxy = do
    opened ← tunnel domain port proxy
    name ← unwrap (s.server_name domain)
    tried Error.socket (s.connect_tls name opened)

  -- Where a call that does not panic is followed by another one, the panic is one of the other one.
  after_no_panic :
      {A B : Type 0} (m : Exec Error s.World A) (f : A → Exec Error s.World B) (w : s.World)
      → (m w).0 ≢ panic
      → ((a : A) (w' : s.World) → (f a w').0 ≢ panic)
      → ((m >>= f) w).0 ≢ panic
  after_no_panic {A} {B} m f w calm next h = split (m w) calm h
    where
      split : (r : Outcome Error A × s.World) → r.0 ≢ panic → (continue r f).0 ≡ panic → ⊥
      split (ok a, w') calm h = next a w' h
      split (err e, w') calm h = cc
      split (panic, w') calm h = calm refl
      split (stuck, w') calm h = cc

  no_panic : {A : Type 0} (a : A) (w : s.World) → ◌≢◌ {A = Outcome Error A} (ok a) panic
  no_panic a w h = cc

  set_no_panic :
      (r : (IoError ⊎ Unit {0}) × s.World) (m : Exec Error s.World s.Tunnel)
      → ((w : s.World) → (m w).0 ≢ panic)
      → (continue (settled Error.socket r) (λ _. m)).0 ≢ panic
  set_no_panic (inl e, w) m calm h = cc
  set_no_panic (inr done, w) m calm h = calm w h

  tuned_no_panic : (stream : s.TcpStream) (w : s.World) → (tuned stream w).0 ≢ panic
  unfolding tuned
  tuned_no_panic stream w = set_no_panic (s.set_nodelay stream true w) _ (λ w'.
      set_no_panic (s.set_linger stream none w') (pure (s.boxed stream))
        (no_panic (s.boxed stream)))

  reached_no_panic :
      (port : ℕ) (mail_socket : s.SocketAddr) (w : s.World) → (reached port mail_socket w).0 ≢ panic
  unfolding reached
  reached_no_panic port mail_socket w =
      after_no_panic (tried Error.socket (s.connect (s.set_port mail_socket port))) tuned w
        (settled_no_panic Error.socket (s.connect (s.set_port mail_socket port) w)) tuned_no_panic

  tunnel_no_panic :
      (domain : Bytes) (port : ℕ) (proxy : Option s.Proxy) (w : s.World)
      → (tunnel domain port proxy w).0 ≢ panic
  unfolding tunnel next_address
  tunnel_no_panic domain port (some proxy) w =
      settled_no_panic Error.proxy (s.connect_tcp proxy domain port w)
  tunnel_no_panic domain port none w =
      after_no_panic (tried Error.socket (s.lookup_host domain port))
        (λ resolved. next_address resolved >>= reached port) w
        (settled_no_panic Error.socket (s.lookup_host domain port w)) some_address
    where
      some_address :
          (resolved : List s.SocketAddr) (w : s.World)
          → ((next_address resolved >>= reached port) w).0 ≢ panic
      some_address [] w h = cc
      some_address (a ∷ resolved) w h = reached_no_panic port a w h

  -- With the tunnel in hand, what is done next depends on the name.
  behind_tunnel :
      (domain : Bytes) (opened : s.Tunnel) (w : s.World)
      → ((unwrap (s.server_name domain) >>= λ name. tried Error.socket (s.connect_tls name opened))
          w).0
        ≡ panic
      → s.server_name domain ≡ none
  unfolding unwrap
  behind_tunnel domain opened w h = elim (Option-cases (s.server_name domain)) [
    | inl e ↦ e
    | inr (name, e) ↦
        absurd (settled_no_panic Error.socket (s.connect_tls name opened w) (rw e at h))
  ]

  -- The connection panics just where a tunnel to the server has been opened, through the proxy or by DNS, and the
  -- domain is no name that a certificate can have. All other failures are errors.
  pub connect_maybe_proxied_stream_tls-panic :
      (domain : Bytes) (port : ℕ) (proxy : Option s.Proxy) (w : s.World)
      → ((connect_maybe_proxied_stream_tls domain port proxy w).0 ≡ panic) ↔ (
          (opened : s.Tunnel) × (w' : s.World) × (tunnel domain port proxy w ≡ (ok opened, w'))
          × (s.server_name domain ≡ none))
  unfolding connect_maybe_proxied_stream_tls unwrap
  connect_maybe_proxied_stream_tls-panic domain port proxy w =
      split (tunnel domain port proxy w) refl
    where
      split :
          (r : Outcome Error s.Tunnel × s.World)
          → tunnel domain port proxy w ≡ r
          → ((continue r (λ opened. unwrap (s.server_name domain) >>= λ name.
                tried Error.socket (s.connect_tls name opened))).0
              ≡ panic)
            ↔ ((opened : s.Tunnel) × (w' : s.World) × (r ≡ (ok opened, w'))
                × (s.server_name domain ≡ none))
      split (ok opened, w') e = (
        λ h. (opened, w', refl, behind_tunnel domain opened w' h),
        λ (t, w'', same, missing). rw missing refl,
      )
      split (err x, w') e = (λ h. absurd (cc), λ (t, w'', same, missing). absurd (cc))
      split (panic, w') e = absurd (tunnel_no_panic domain port proxy w (ap (λ r. r.0) e))
      split (stuck, w') e = (λ h. absurd (cc), λ (t, w'', same, missing). absurd (cc))

module _ (env : Env) (imap_env : Imap) (s : Sockets env.Socket)
    (as_imap : env.Socket → imap_env.Conn) where
  -- The connectors open their streams with it; `async_imap` is given the boxed stream.
  abbrev pub network : Network env imap_env
  network = record {
    World = s.World;
    Proxy = s.Proxy;
    open_pop3 =
        λ endpoint proxy. connect_maybe_proxied_stream_tls s endpoint.domain endpoint.port proxy;
    open_imap = λ endpoint proxy.
        connect_maybe_proxied_stream_tls s endpoint.domain endpoint.port proxy >>= λ stream.
        pure (as_imap stream);
  }
