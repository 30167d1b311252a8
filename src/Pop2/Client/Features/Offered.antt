-- ===== src/Pop2/Client/Features/Offered.antt =====
-- When `check_capability` of async-pop2/src/lib.rs lets a command through that wants one capability.
use getemail.Base.{
  ◌≡◌, refl, ◌↔◌, true, List, [], ◌∷◌, Bytes, bytes_eq_iff, length, if◌then◌else◌, arith, ◌⊎◌,
}
use getemail.Base.Exec.{ok, err}
use getemail.Pop2.Error.{feature_unsupported}
use getemail.Pop2.Env.{Env}
use getemail.Pop2.Types.{Duration}
use getemail.Pop2.Response.{Capability, Capabilities, Expiration}
use getemail.Pop2.Client.{Client}
use getemail.Pop2.Client.Features.{
  duration_eq, expiration_eq, all_bytes_eq, capability_eq, contains, to_set, intersection, supports,
  has_capability, check_capability,
}

all_bytes_eq_iff : (a b : List Bytes) → (all_bytes_eq a b ≡ true) ↔ (a ≡ b)
all_bytes_eq_iff (x ∷ a) (y ∷ b) = ground (arith, bytes_eq_iff x y, all_bytes_eq_iff a b)
all_bytes_eq_iff _ _ = ground arith

duration_eq_iff : (a b : Duration) → (duration_eq a b ≡ true) ↔ (a ≡ b)
duration_eq_iff a b = ground (arith, bytes_eq_iff a.inner.inner b.inner.inner)

expiration_eq_iff : (a b : Expiration) → (expiration_eq a b ≡ true) ↔ (a ≡ b)
expiration_eq_iff (Expiration.time a) (Expiration.time b) = ground (arith, duration_eq_iff a b)
expiration_eq_iff _ _ = ground arith

capability_eq_iff : (a b : Capability) → (capability_eq a b ≡ true) ↔ (a ≡ b)
unfolding capability_eq
capability_eq_iff (Capability.sasl a) (Capability.sasl b) = ground (arith, all_bytes_eq_iff a b)
capability_eq_iff (Capability.login_delay a) (Capability.login_delay b) =
    ground (arith, duration_eq_iff a b)
capability_eq_iff (Capability.expire a) (Capability.expire b) =
    ground (arith, expiration_eq_iff a b)
capability_eq_iff (Capability.implementation a) (Capability.implementation b) =
    ground (arith, bytes_eq_iff a.inner b.inner)
capability_eq_iff (Capability.other a) (Capability.other b) =
    ground (arith, bytes_eq_iff a.inner b.inner)
capability_eq_iff _ _ = ground arith

contains-to_set : (c : Capability) (cs : Capabilities) → contains c (to_set cs) ≡ contains c cs
unfolding contains to_set
contains-to_set c [] = refl
contains-to_set c (d ∷ cs) =
    ground (arith, contains-to_set c cs, contains-to_set d cs, capability_eq_iff c d)

length-intersection :
    (c : Capability) (cs : Capabilities)
    → length (intersection (to_set cs) (c ∷ [])) ≡ (if contains c cs then 1 else 0)
unfolding contains to_set intersection
length-intersection c [] = refl
length-intersection c (d ∷ cs) = ground (
  arith,
  length-intersection c cs,
  contains-to_set d cs,
  contains-to_set c cs,
  capability_eq_iff c d,
  capability_eq_iff d c,
)

abbrev pub Offers : Capabilities → Capability → Type 0
Offers [] cap = ⊥
Offers (c ∷ cs) cap = (cap ≡ c) ⊎ Offers cs cap

contains_iff : (cap : Capability) (cs : Capabilities) → (contains cap cs ≡ true) ↔ Offers cs cap
unfolding contains
contains_iff cap [] = ground arith
contains_iff cap (c ∷ cs) = ground (arith, capability_eq_iff cap c, contains_iff cap cs)

supports_lem : (cap : Capability) (cs : Capabilities) → supports cs (cap ∷ []) ≡ contains cap cs
unfolding supports to_set contains
supports_lem cap cs = ground (arith, length-intersection cap cs)

module _ {env : Env} where
  -- A command that wants one capability passes the check exactly if the server has stated it, with
  -- whatever else and however often; else `FeatureUnsupported` is returned. The client stays as it is.
  pub check_capability-Offers :
      (cap : Capability) (c : Client env)
      → (Offers c.capabilities cap × (check_capability (cap ∷ []) c ≡ (ok tt, c)))
        ⊎ ((¬ Offers c.capabilities cap)
            × (check_capability (cap ∷ []) c ≡ (err feature_unsupported, c)))
  unfolding check_capability has_capability
  check_capability-Offers cap c =
      ground (arith, supports_lem cap c.capabilities, contains_iff cap c.capabilities)
