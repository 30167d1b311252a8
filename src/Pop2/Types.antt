-- ===== src/Pop2/Types.antt =====
-- async-pop2/src/response/types: the raw text of a field of a response, kept as it was received.
pub mod Value
pub mod Field
pub mod Lossy
use getemail.Base.{ℕ, Bytes}

pub record Text : Type 0 where
  pub inner : Bytes

pub record Number : Type 0 where
  pub inner : Bytes

pub record Duration : Type 0 where
  pub inner : Number
  pub to_secs_multiplier : ℕ
