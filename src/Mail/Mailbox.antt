-- ===== src/Mail/Mailbox.antt =====
-- `Mailbox` and `Error` of src/lib.rs. A `String` is its bytes.
use mathlib.Core.Option
use getemail.Base.{
  ℕ, ◌≡◌, refl, ap, ◌≢◌, ◌⊎◌, inl, inr, [], ◌∷◌, ◌++◌, Bytes, Option, none, some, ◌==◌,
  if◌then◌else◌, arith,
}
use getemail.Pop2.Error.{IoError, ErrorKind}
use getemail.Mail.Crates.{Crates}

-- `async_imap::error::Error` and `proxied::ConnectError`, by a number.
abbrev pub ImapError : Type 0
ImapError = ℕ

abbrev pub ProxyError : Type 0
ProxyError = ℕ

pub data Error : Type 0 where
  mailbox_invalid_domain server_not_found : Bytes → Error
  message_parse_failed : Error
  imap : ImapError → Error
  pop : ErrorKind → Error
  proxy : ProxyError → Error
  resolve_dns : Error
  socket : IoError → Error

pub record OAuthToken (crates : Crates) : Type 0 where
  pub token : Bytes
  pub token_expiration : crates.DateTime

pub record OAuthData (crates : Crates) : Type 0 where
  pub access : OAuthToken crates
  pub refresh : OAuthToken crates

pub record Mailbox (crates : Crates) : Type 0 where
  pub email : Bytes
  pub password : Bytes
  pub oauth2 : Option (OAuthData crates)

-- `str::split_once`: what stands before the first separator, and what stands behind it.
before : ℕ → Bytes × Bytes → Bytes × Bytes
before c (left, right) = (c ∷ left, right)

unfoldable pub split_once : ℕ → Bytes → Option (Bytes × Bytes)
unfolding before
split_once separator [] = none
split_once separator (c ∷ cs) =
    let rest = split_once separator cs in
    if c == separator then some ([], cs) else Option.map (before c) rest

domain_of : Option (Bytes × Bytes) → Option Bytes
domain_of none = none
domain_of (some (user, domain)) = some domain

unfoldable pub get_domain : (crates : Crates) → Mailbox crates → Option Bytes
unfolding domain_of split_once
get_domain crates mailbox = domain_of (split_once b'@' mailbox.email)

abbrev pub Lacks : ℕ → Bytes → Type 0
Lacks separator [] = Unit {0}
Lacks separator (c ∷ cs) = (c ≢ separator) × Lacks separator cs

split_once_lem :
    (separator : ℕ) (s : Bytes)
    → ((split_once separator s ≡ none) × Lacks separator s)
      ⊎ ((left : Bytes) × (right : Bytes) × (split_once separator s ≡ some (left, right))
          × (s ≡ left ++ separator ∷ right)
          × Lacks separator left)
unfolding split_once
split_once_lem separator [] = inl (refl, tt)
split_once_lem separator (c ∷ cs) = ground (arith, split_once_lem separator cs)

-- What `get_domain` answers: the part behind the first `@`, if there is one.
pub get_domain_lem :
    (crates : Crates) (mailbox : Mailbox crates)
    → ((get_domain crates mailbox ≡ none) × Lacks b'@' mailbox.email)
      ⊎ ((user : Bytes) × (domain : Bytes) × (get_domain crates mailbox ≡ some domain)
          × (mailbox.email ≡ user ++ b'@' ∷ domain)
          × Lacks b'@' user)
unfolding get_domain
get_domain_lem crates mailbox = elim (split_once_lem b'@' mailbox.email) [
  | inl (e, lacks) ↦ inl (ap domain_of e, lacks)
  | inr (user, domain, e, whole, lacks) ↦ inr (user, domain, ap domain_of e, whole, lacks)
]
