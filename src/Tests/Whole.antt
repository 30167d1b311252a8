-- ===== src/Tests/Whole.antt =====
-- A network in which every connection leads to the scripted server, and a map of servers.
use getemail.Base.{ℕ, suc, ◌≡◌, ◌↔◌, refl, inr, [], ◌∷◌, Bytes, codes, none, some}
use getemail.Base.Exec.{ok, panic}
use getemail.Pop2.Parser.{with_parser}
use getemail.Mail.ServerMap
use getemail.Mail.ServerMap.{ProtocolEndpoint, pop3, ServerMap, add_server}
use getemail.Mail.Common.{
  Sockets, tunnel, connect_maybe_proxied_stream_tls, connect_maybe_proxied_stream_tls-panic,
}
use getemail.Mail.Pop3.{Pop3}
use getemail.Tests.World.{world}
use getemail.Tests.Nom.{nom}
use getemail.Tests.Fetched.{raw, server}

-- The world counts the calls; an address and a name are bytes, and no name is empty.
abbrev sockets : Sockets (with_parser world nom).Socket
sockets = record {
  World = ℕ;
  Proxy = ℕ;
  Tunnel = Bytes;
  SocketAddr = Bytes;
  TcpStream = Bytes;
  ServerName = Bytes;
  connect_tcp = λ proxy domain port w. (inr domain, suc w);
  lookup_host = λ domain port w. (inr (domain ∷ []), suc w);
  set_port = λ a port. a;
  connect = λ a w. (inr a, suc w);
  set_nodelay = λ stream on w. (inr tt, suc w);
  set_linger = λ stream time w. (inr tt, suc w);
  boxed = λ stream. stream;
  server_name = λ domain. elim domain [ [] ↦ none | c ∷ cs ↦ some (c ∷ cs) ];
  connect_tls = λ name opened w. (inr (raw server), suc w);
}

abbrev endpoint : ProtocolEndpoint
endpoint = record { domain = codes "pop.b.c"; port = 995 }

abbrev map : ServerMap
map = add_server ServerMap.new (record { domains = codes "b.c" ∷ []; endpoint = pop3 endpoint })

connect_maybe_proxied_stream_tls-panic_example :
    ((connect_maybe_proxied_stream_tls sockets [] 995 none 0).0 ≡ panic) ↔ (
      (opened : Bytes) × (w' : ℕ) × (tunnel sockets [] 995 none 0 ≡ (ok opened, w'))
      × (sockets.server_name [] ≡ none))
connect_maybe_proxied_stream_tls-panic_example =
    connect_maybe_proxied_stream_tls-panic sockets [] 995 none 0

opened :
    connect_maybe_proxied_stream_tls sockets endpoint.domain endpoint.port none 0
    ≡ (ok (raw server), 5)
unfolding connect_maybe_proxied_stream_tls tunnel
opened = refl
