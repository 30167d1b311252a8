-- ===== src/Pop2/Client/Features.antt =====
-- What the server can do (async-pop2/src/lib.rs): `has_capability`, `check_capability`,
-- `has_auth_mechanism`, `capa`, `update_capabilities`. A `HashSet` is a list without duplicates.
pub mod Offered
use getemail.Base.{
  ℕ, Bool, true, false, not, ◌&&◌, ◌||◌, List, [], ◌∷◌, Bytes, Option, none, some, length, ◌==◌,
  if◌then◌else◌, bytes_eq, to_ascii_lowercase,
}
use getemail.Base.Exec.{ok, pure, fail, modify, attempt, ◌>>=◌}
use getemail.Pop2.Command.{Command}
use getemail.Pop2.Request
use getemail.Pop2.Types.{Duration}
use getemail.Pop2.Response.{Response, Capability, Capabilities, Expiration, never, time}
use getemail.Pop2.Error.{feature_unsupported, unexpected_response}
use getemail.Pop2.Env.{Env}
use getemail.Pop2.Client.{Client, Call, send_request}

-- The derived `PartialEq` of `Duration`, `Expiration` and `Capability`.
abbrev duration_eq : Duration → Duration → Bool
duration_eq a b =
    bytes_eq a.inner.inner b.inner.inner && a.to_secs_multiplier == b.to_secs_multiplier

abbrev expiration_eq : Expiration → Expiration → Bool
expiration_eq never never = true
expiration_eq (time a) (time b) = duration_eq a b
expiration_eq _ _ = false

abbrev all_bytes_eq : List Bytes → List Bytes → Bool
all_bytes_eq [] [] = true
all_bytes_eq (a ∷ as') (b ∷ bs) = bytes_eq a b && all_bytes_eq as' bs
all_bytes_eq _ _ = false

unfoldable pub capability_eq : Capability → Capability → Bool
capability_eq Capability.top Capability.top = true
capability_eq Capability.user Capability.user = true
capability_eq (Capability.sasl a) (Capability.sasl b) = all_bytes_eq a b
capability_eq Capability.resp_codes Capability.resp_codes = true
capability_eq (Capability.login_delay a) (Capability.login_delay b) = duration_eq a b
capability_eq Capability.pipelining Capability.pipelining = true
capability_eq (Capability.expire a) (Capability.expire b) = expiration_eq a b
capability_eq Capability.uidl Capability.uidl = true
capability_eq (Capability.implementation a) (Capability.implementation b) = bytes_eq a.inner b.inner
capability_eq Capability.stls Capability.stls = true
capability_eq (Capability.other a) (Capability.other b) = bytes_eq a.inner b.inner
capability_eq _ _ = false

unfoldable pub contains : Capability → Capabilities → Bool
unfolding capability_eq
contains c [] = false
contains c (d ∷ ds) = capability_eq c d || contains c ds

-- `iter().collect::<HashSet<_>>()`
unfoldable pub to_set : Capabilities → Capabilities
unfolding contains
to_set [] = []
to_set (c ∷ cs) = let rest = to_set cs in if contains c rest then rest else c ∷ rest

-- `HashSet::intersection`
unfoldable pub intersection : Capabilities → Capabilities → Capabilities
unfolding contains
intersection [] other = []
intersection (c ∷ cs) other =
    let rest = intersection cs other in if contains c other then c ∷ rest else rest

unfoldable pub supports : Capabilities → Capabilities → Bool
unfolding to_set intersection
supports server capabilities =
    length (intersection (to_set server) (to_set capabilities)) == length capabilities

-- The inner loop of `has_auth_mechanism`, and the outer one.
any_mechanism : Bytes → List Bytes → Bool
unfolding to_ascii_lowercase bytes_eq
any_mechanism mechanism [] = false
any_mechanism mechanism (m ∷ ms) =
    bytes_eq (to_ascii_lowercase m) (to_ascii_lowercase mechanism) || any_mechanism mechanism ms

unfoldable pub any_sasl : Bytes → Capabilities → Bool
unfolding any_mechanism
any_sasl mechanism [] = false
any_sasl mechanism (Capability.sasl supported ∷ cs) =
    any_mechanism mechanism supported || any_sasl mechanism cs
any_sasl mechanism (_ ∷ cs) = any_sasl mechanism cs

module _ {env : Env} where
  unfoldable pub has_capability : Capabilities → Client env → Bool
  unfolding supports
  has_capability capabilities c = supports c.capabilities capabilities

  unfoldable pub check_capability : Capabilities → Call env Unit
  unfolding has_capability
  check_capability capability c =
      if not (has_capability capability c) then fail feature_unsupported c else (ok tt, c)

  unfoldable pub has_auth_mechanism : Bytes → Client env → Bool
  unfolding any_sasl
  has_auth_mechanism mechanism c = any_sasl mechanism c.capabilities

module _ (env : Env) (fuel : ℕ) where
  unfoldable pub expect_capability : Response → Call env Capabilities
  expect_capability (Response.capability resp) = pure resp
  expect_capability _ = fail unexpected_response

  unfoldable pub capa : Call env Capabilities
  unfolding expect_capability
  capa = do
    response ← send_request env fuel (Request.from_command Command.capa)
    expect_capability response

  unfoldable pub store : Option Capabilities → Call env Unit
  store none = pure tt
  store (some capabilities) = modify (λ c. record c { capabilities = capabilities })

  unfoldable pub update_capabilities : Call env Unit
  unfolding store
  update_capabilities = do found ← attempt capa; store found
