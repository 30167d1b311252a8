-- ===== src/Pop2/Parser/Rfc2449.antt =====
-- async-pop2/src/response/parser/rfc2449.rs: the response to CAPA.
use getemail.Base.{ℕ, ◌*◌, [], ◌∷◌, Bytes, codes, Option, none, some}
use getemail.Pop2.Types.{Duration}
use getemail.Pop2.Response.{Expiration, never, time, Capability, Response}
use getemail.Pop2.Nom.{Nom, Parser, pure, ◌>>=◌, ◌>>◌}
use getemail.Pop2.Parser.Core.{eol, end_of_multiline, message_parser, unwrap_or_empty}
use getemail.Pop2.Parser.Rfc1939.{new_number, new_text}

abbrev pub new_duration : Bytes → ℕ → Duration
new_duration digits multiplier = record {
  inner = new_number digits;
  to_secs_multiplier = multiplier;
}

-- `Expiration::default`
abbrev pub unwrap_or_default : Option Expiration → Expiration
unwrap_or_default none = never
unwrap_or_default (some expiration) = expiration

abbrev pub name_chars : Bytes
name_chars = codes "ABCDEFGHIJKLMNOPQRSTUVWXYZ0123456789-"

module _ (nom : Nom) where
  unfoldable pub sasl_mechanism : Parser Bytes
  sasl_mechanism = nom.alt (
      nom.tag_no_case (codes "KERBEROS_V4")
      ∷ nom.tag_no_case (codes "GSSAPI")
      ∷ nom.tag_no_case (codes "SKEY")
      ∷ nom.tag_no_case (codes "CRAM-MD5")
      ∷ nom.tag_no_case (codes "PLAIN")
      ∷ nom.tag_no_case (codes "XOAUTH2")
      ∷ nom.tag_no_case (codes "OAUTHBEARER")
      ∷ [])

  unfoldable pub sasl : Parser Capability
  unfolding sasl_mechanism
  sasl = do
    nom.tag_no_case (codes "SASL")
    nom.space0
    mechanisms ← nom.separated_list0 nom.space1 sasl_mechanism
    eol nom
    pure (Capability.sasl mechanisms)

  unfoldable pub login_delay : Parser Capability
  login_delay = do
    nom.tag_no_case (codes "LOGIN-DELAY")
    nom.space1
    seconds ← nom.digit1
    eol nom
    pure (Capability.login_delay (new_duration seconds 1))

  unfoldable pub expiration : Parser Expiration
  expiration = nom.preceded nom.space1 (
      nom.alt (
        nom.map nom.digit1 (λ digits. time (new_duration digits (24 * 60 * 60)))
        ∷ nom.value never (nom.tag_no_case (codes "NEVER"))
        ∷ []))

  unfoldable pub expire : Parser Capability
  unfolding expiration
  expire = do
    nom.tag_no_case (codes "EXPIRE")
    found ← nom.opt expiration
    eol nom
    pure (Capability.expire (unwrap_or_default found))

  unfoldable pub implementation : Parser Capability
  implementation = do
    nom.tag_no_case (codes "IMPLEMENTATION")
    message ← message_parser nom
    pure (Capability.implementation (new_text (unwrap_or_empty message)))

  unfoldable pub unknown_capability : Parser Capability
  unknown_capability =
      nom.terminated
        (nom.map (nom.many1 (nom.one_of name_chars)) (λ other. Capability.other (new_text other)))
        (eol nom)

  -- A capability that is its keyword.
  unfoldable pub keyword : Capability → Bytes → Parser Capability
  keyword capability name = nom.terminated (nom.value capability (nom.tag_no_case name)) (eol nom)

  unfoldable pub capability : Parser Capability
  unfolding keyword sasl login_delay expire implementation unknown_capability
  capability = nom.alt (
      keyword Capability.top (codes "TOP")
      ∷ keyword Capability.user (codes "USER")
      ∷ keyword Capability.resp_codes (codes "RESP-CODES")
      ∷ sasl
      ∷ login_delay
      ∷ keyword Capability.pipelining (codes "PIPELINING")
      ∷ expire
      ∷ keyword Capability.uidl (codes "UIDL")
      ∷ implementation
      ∷ keyword Capability.stls (codes "STLS")
      ∷ unknown_capability
      ∷ [])

  unfoldable pub capability_response : Parser Response
  unfolding capability
  capability_response = do
    message_parser nom
    (capabilities, _) ← nom.many_till capability (end_of_multiline nom)
    pure (Response.capability capabilities)
