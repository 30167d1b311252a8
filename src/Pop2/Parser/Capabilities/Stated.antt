-- ===== src/Pop2/Parser/Capabilities/Stated.antt =====
-- What a server states of its capabilities, and how it is written.
use getemail.Base.{
  ℕ, ◌≡◌, ◌≤◌, refl, inl, inr, true, List, [], ◌∷◌, ◌++◌, Bytes, codes, arith, length,
  length-append, Bool-cases, IsLine, ◌==◌,
}
use getemail.Base.Decimal.{is_digit}
use getemail.Pop2.Response.{Capability}
use getemail.Pop2.Nom.Laws.{is_in}
use getemail.Pop2.Parser.Rfc2449.{name_chars}
use getemail.Pop2.Parser.Lines.{crlf}
use getemail.Pop2.Parser.Primitives.{StopsAt}
use getemail.Pop2.Parser.Stats.{Some, length-Some}
use getemail.Pop2.Parser.Keywords.{all_apart}
use getemail.Pop2.Parser.Capabilities.Sasl.{AllMechanisms, spaced}
use getemail.Pop2.Parser.Capabilities.{period, IsPeriod}

-- The keywords, in the order in which they are tried.
abbrev pub keywords : List Bytes
keywords =
    codes "TOP"
    ∷ codes "USER"
    ∷ codes "RESP-CODES"
    ∷ codes "SASL"
    ∷ codes "LOGIN-DELAY"
    ∷ codes "PIPELINING"
    ∷ codes "EXPIRE"
    ∷ codes "UIDL"
    ∷ codes "IMPLEMENTATION"
    ∷ codes "STLS"
    ∷ []

-- A capability as a line.
abbrev pub capability_text : Capability → Bytes
capability_text Capability.top = codes "TOP" ++ crlf
capability_text Capability.user = codes "USER" ++ crlf
capability_text (Capability.sasl mechanisms) = codes "SASL" ++ (spaced mechanisms ++ crlf)
capability_text Capability.resp_codes = codes "RESP-CODES" ++ crlf
capability_text (Capability.login_delay d) =
    codes "LOGIN-DELAY" ++ (codes " " ++ (d.inner.inner ++ crlf))
capability_text Capability.pipelining = codes "PIPELINING" ++ crlf
capability_text (Capability.expire e) = codes "EXPIRE" ++ ((codes " " ++ period e) ++ crlf)
capability_text Capability.uidl = codes "UIDL" ++ crlf
capability_text (Capability.implementation text) = codes "IMPLEMENTATION" ++ (text.inner ++ crlf)
capability_text Capability.stls = codes "STLS" ++ crlf
capability_text (Capability.other text) = text.inner ++ crlf

-- What a server may state of a capability: SASL with mechanisms that the parser knows, and another name only if
-- it begins like no keyword.
abbrev pub IsStated : Capability → Type 0
IsStated (Capability.sasl []) = ⊥
IsStated (Capability.sasl (m ∷ ms)) = AllMechanisms (m ∷ ms)
IsStated (Capability.login_delay d) = Some is_digit d.inner.inner × (d.to_secs_multiplier ≡ 1)
IsStated (Capability.expire e) = IsPeriod e
IsStated (Capability.implementation text) = IsLine text.inner
IsStated (Capability.other text) =
    Some (is_in name_chars) text.inner × (all_apart keywords (text.inner ++ crlf) ≡ true)
IsStated _ = Unit {0}

name_no_dot :
    (name rest : Bytes)
    → Some (is_in name_chars) name
    → StopsAt (λ x. x == b'.') ((name ++ crlf) ++ rest)
name_no_dot [] rest h = absurd h
name_no_dot (c ∷ name) rest h = elim (Bool-cases (c == b'.')) [
  | inl e ↦ absurd (dot_no_name c (ground (arith, e)) h.0)
  | inr e ↦ e
]
  where
    dot_no_name : (c : ℕ) → c ≡ b'.' → is_in name_chars c ≡ true → ⊥
    dot_no_name c e h = cc

pub length-capability_text : (c : Capability) → IsStated c → 3 ≤ length (capability_text c)
length-capability_text (Capability.other text) h =
    omega (arith, length-append text.inner crlf, length-Some (is_in name_chars) text.inner h.0)
length-capability_text (Capability.sasl mechanisms) h = omega arith
length-capability_text Capability.top h = omega arith
length-capability_text Capability.user h = omega arith
length-capability_text Capability.resp_codes h = omega arith
length-capability_text (Capability.login_delay d) h = omega arith
length-capability_text Capability.pipelining h = omega arith
length-capability_text (Capability.expire e) h = omega arith
length-capability_text Capability.uidl h = omega arith
length-capability_text (Capability.implementation text) h = omega arith
length-capability_text Capability.stls h = omega arith

pub capability_no_dot :
    (c : Capability) (rest : Bytes)
    → IsStated c
    → StopsAt (λ x. x == b'.') (capability_text c ++ rest)
capability_no_dot (Capability.other text) rest h = name_no_dot text.inner rest h.0
capability_no_dot (Capability.sasl mechanisms) rest h = refl
capability_no_dot Capability.top rest h = refl
capability_no_dot Capability.user rest h = refl
capability_no_dot Capability.resp_codes rest h = refl
capability_no_dot (Capability.login_delay d) rest h = refl
capability_no_dot Capability.pipelining rest h = refl
capability_no_dot (Capability.expire e) rest h = refl
capability_no_dot Capability.uidl rest h = refl
capability_no_dot (Capability.implementation text) rest h = refl
capability_no_dot Capability.stls rest h = refl
