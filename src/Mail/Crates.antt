-- ===== src/Mail/Crates.antt =====
-- What getemail takes from other crates: dates of chrono, parsed messages of mail_parser,
-- regular expressions of regex.
use getemail.Base.{ℕ, Bool, Bytes, Option}

pub record Crates : Type 1 where
  -- `chrono::DateTime<Utc>`, with its order, and its making from seconds since 1970.
  pub DateTime : Type 0
  pub later : DateTime → DateTime → Bool
  pub Timestamp : Type 0
  pub from_timestamp : Timestamp → Option DateTime
  -- `mail_parser::Message<'static>`, and `Address::contains`.
  pub Message : Type 0
  pub Address : Type 0
  pub parse : Bytes → Option Message
  pub subject : Message → Option Bytes
  pub sender : Message → Option Address
  pub address_contains : Address → Bytes → Bool
  pub date : Message → Option Timestamp
  pub body_html : Message → ℕ → Option Bytes
  -- `regex::Regex`.
  pub Regex : Type 0
  pub is_match : Regex → Bytes → Bool
