-- ===== src/Mail/Connect.antt =====
-- `connect_any` of src/lib.rs, over the two connectors. The opening of a stream (src/common.rs: DNS,
-- proxy, TLS) is a parameter.
use getemail.Base.{ℕ, ◌≡◌, ◌≢◌, refl, ◌⊎◌, inl, inr, Option-cases, Bytes, Option, none, some, arith}
use getemail.Base.Exec.{Outcome, ok, err, panic, stuck, Exec, pure, fail, abort, lift, ◌>>=◌}
use getemail.Pop2.Env.{Env}
use getemail.Mail.Crates.{Crates}
use getemail.Mail.Mailbox.{Mailbox, Error, mailbox_invalid_domain, server_not_found, get_domain}
use getemail.Mail.ServerMap.{
  ProtocolEndpoint, Endpoints, pop3, imap, full, get_pop3, get_imap, ServerMap, get_by_domain,
}
use getemail.Mail.Pop3
use getemail.Mail.Pop3.{Pop3}
use getemail.Mail.Imap
use getemail.Mail.Imap.{Imap}

-- `connect_maybe_proxied_stream_tls`, at the type of what reads from the stream.
pub record Network (env : Env) (imap_env : Imap) : Type 1 where
  pub World : Type 0
  pub Proxy : Type 0
  pub open_pop3 : ProtocolEndpoint → Option Proxy → World → Outcome Error env.Socket × World
  pub open_imap : ProtocolEndpoint → Option Proxy → World → Outcome Error imap_env.Conn × World

-- A boxed `DynEmailReader`.
pub data EmailReader (env : Env) (imap_env : Imap) (crates : Crates) : Type 0 where
  over_imap : imap_env.Session → EmailReader env imap_env crates
  over_pop3 : Pop3 env crates → EmailReader env imap_env crates

module _ (env : Env) (imap_env : Imap) (crates : Crates) (net : Network env imap_env)
    (fuel : ℕ) where
  abbrev pub Connecting : Type 0
  Connecting = Exec Error net.World (EmailReader env imap_env crates)

  unfoldable pub connect_imap : Mailbox crates → ProtocolEndpoint → Option net.Proxy → Connecting
  connect_imap mailbox endpoint proxy = do
    stream ← net.open_imap endpoint proxy
    session ← lift (Imap.connect imap_env crates mailbox stream)
    pure (over_imap session)

  unfoldable pub connect_pop3 : Mailbox crates → ProtocolEndpoint → Option net.Proxy → Connecting
  connect_pop3 mailbox endpoint proxy = do
    stream ← net.open_pop3 endpoint proxy
    reader ← lift (Pop3.connect env crates fuel mailbox stream)
    pure (over_pop3 reader)

  -- The second `if let`, and the `unwrap` behind it.
  then_pop3 :
      Mailbox crates → Option net.Proxy → Option ProtocolEndpoint → Option Error → Connecting
  unfolding connect_pop3
  then_pop3 mailbox proxy (some endpoint) e = connect_pop3 mailbox endpoint proxy
  then_pop3 mailbox proxy none (some e) = fail e
  then_pop3 mailbox proxy none none = abort

  or_else :
      Outcome Error (EmailReader env imap_env crates) × net.World
      → (Option Error → Connecting)
      → Outcome Error (EmailReader env imap_env crates) × net.World
  or_else (ok reader, w) rest = (ok reader, w)
  or_else (err e, w) rest = rest (some e) w
  or_else (panic, w) rest = (panic, w)
  or_else (stuck, w) rest = (stuck, w)

  first_imap :
      Mailbox crates
      → Option net.Proxy
      → Option ProtocolEndpoint
      → (Option Error → Connecting)
      → Connecting
  unfolding connect_imap or_else
  first_imap mailbox proxy none rest w = rest none w
  first_imap mailbox proxy (some endpoint) rest w =
      or_else (connect_imap mailbox endpoint proxy w) rest

  connect_entry : Mailbox crates → Option net.Proxy → Bytes → Option Endpoints → Connecting
  unfolding first_imap then_pop3 get_imap get_pop3
  connect_entry mailbox proxy domain none = fail (server_not_found domain)
  connect_entry mailbox proxy domain (some entry) =
      first_imap mailbox proxy (get_imap entry) (then_pop3 mailbox proxy (get_pop3 entry))

  connect_domain : Mailbox crates → Option net.Proxy → ServerMap → Option Bytes → Connecting
  unfolding connect_entry get_by_domain
  connect_domain mailbox proxy map none = fail (mailbox_invalid_domain mailbox.email)
  connect_domain mailbox proxy map (some domain) =
      connect_entry mailbox proxy domain (get_by_domain map domain)

  unfoldable pub connect_any : Mailbox crates → Option net.Proxy → ServerMap → Connecting
  unfolding connect_domain get_domain
  connect_any mailbox proxy map = connect_domain mailbox proxy map (get_domain crates mailbox)

  -- What a caller sees, for each entry of the map.
  abbrev pub Served :
      Mailbox crates
      → Option net.Proxy
      → Endpoints
      → net.World
      → Outcome Error (EmailReader env imap_env crates) × net.World
      → Type 0
  Served mailbox proxy (pop3 p) w r = r ≡ connect_pop3 mailbox p proxy w
  Served mailbox proxy (imap i) w r = r ≡ connect_imap mailbox i proxy w
  Served mailbox proxy (full p i) w r =
      ((e : Error) × (w' : net.World) × (connect_imap mailbox i proxy w ≡ (err e, w'))
        × (r ≡ connect_pop3 mailbox p proxy w'))
      ⊎ (((e : Error) → r.0 ≢ err e) × (r ≡ connect_imap mailbox i proxy w))

  connect_entry-Served :
      (mailbox : Mailbox crates) (proxy : Option net.Proxy) (domain : Bytes) (entry : Endpoints)
      (w : net.World)
      → Served mailbox proxy entry w (connect_entry mailbox proxy domain (some entry) w)
  unfolding connect_entry first_imap then_pop3 get_imap get_pop3 or_else
  connect_entry-Served mailbox proxy domain (pop3 p) w = refl
  connect_entry-Served mailbox proxy domain (imap i) w = again (connect_imap mailbox i proxy w)
    where
      again :
          (r : Outcome Error (EmailReader env imap_env crates) × net.World)
          → or_else r (then_pop3 mailbox proxy none) ≡ r
      again (ok reader, w) = refl
      again (err e, w) = refl
      again (panic, w) = refl
      again (stuck, w) = refl
  connect_entry-Served mailbox proxy domain (full p i) w =
      split (connect_imap mailbox i proxy w) refl
    where
      split :
          (r : Outcome Error (EmailReader env imap_env crates) × net.World)
          → connect_imap mailbox i proxy w ≡ r
          → Served mailbox proxy
              (full p i)
              w
              (or_else (connect_imap mailbox i proxy w) (then_pop3 mailbox proxy (some p)))
      split (ok reader, w') e = inr (λ x h. absurd (ground (arith, e, h)), ground (arith, e))
      split (err x, w') e = inl (x, w', e, ground (arith, e))
      split (panic, w') e = inr (λ x h. absurd (ground (arith, e, h)), ground (arith, e))
      split (stuck, w') e = inr (λ x h. absurd (ground (arith, e, h)), ground (arith, e))

  -- A mailbox without a domain and a domain that is not in the map are named errors, with nothing
  -- opened. Else IMAP is tried first where the domain has it, and POP3 where there is no IMAP or where
  -- IMAP has failed. So `unwrap` is never reached without an error.
  pub connect_any-Served :
      (mailbox : Mailbox crates) (proxy : Option net.Proxy) (map : ServerMap) (w : net.World)
      → ((get_domain crates mailbox ≡ none)
          × (connect_any mailbox proxy map w ≡ (err (mailbox_invalid_domain mailbox.email), w)))
        ⊎ ((domain : Bytes) × (get_domain crates mailbox ≡ some domain)
            × (((get_by_domain map domain ≡ none)
                  × (connect_any mailbox proxy map w ≡ (err (server_not_found domain), w)))
                ⊎ ((entry : Endpoints) × (get_by_domain map domain ≡ some entry)
                    × Served mailbox proxy entry w (connect_any mailbox proxy map w))))
  unfolding connect_any connect_domain
  connect_any-Served mailbox proxy map w = elim (Option-cases (get_domain crates mailbox)) [
    | inl e ↦ inl (e, rw e refl)
    | inr (domain, e) ↦ inr (
      domain,
      e,
      elim (Option-cases (get_by_domain map domain)) [
        | inl g ↦ inl (g, unfold connect_entry in rw (e, g) refl)
        | inr (entry, g) ↦
            inr (entry, g, rw (e, g) (connect_entry-Served mailbox proxy domain entry w))
      ],
    )
  ]

  -- A domain that only has POP3.
  pub connect_any-pop3 :
      (mailbox : Mailbox crates) (proxy : Option net.Proxy) (map : ServerMap) (domain : Bytes)
      (p : ProtocolEndpoint) (w : net.World)
      → get_domain crates mailbox ≡ some domain
      → get_by_domain map domain ≡ some (pop3 p)
      → connect_any mailbox proxy map w ≡ connect_pop3 mailbox p proxy w
  unfolding connect_any connect_domain connect_entry first_imap then_pop3 get_imap get_pop3
  connect_any-pop3 mailbox proxy map domain p w d e = rw (d, e) refl
