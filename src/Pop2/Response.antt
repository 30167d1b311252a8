-- ===== src/Pop2/Response.antt =====
-- async-pop2/src/response: what a parsed response holds.
use getemail.Base.{Bool, Bytes, List, Option}
use getemail.Pop2.Types.{Text, Number, Duration}

pub record Stat : Type 0 where
  pub message_count : Number
  pub size : Number

-- `List` and `ListResponse` of list.rs.
pub record ScanList : Type 0 where
  pub stats : Option Stat
  pub items : List Stat

pub data ListResponse : Type 0 where
  multiple : ScanList → ListResponse
  single : Stat → ListResponse

-- uidl.rs
pub record UniqueId : Type 0 where
  pub index : Number
  pub id : Text

pub record Uidl : Type 0 where
  pub message : Option Text
  pub items : List UniqueId

pub data UidlResponse : Type 0 where
  multiple : Uidl → UidlResponse
  single : UniqueId → UidlResponse

-- capability.rs
pub data Expiration : Type 0 where
  never : Expiration
  time : Duration → Expiration

pub data Capability : Type 0 where
  top user : Capability
  sasl : List Bytes → Capability
  resp_codes : Capability
  login_delay : Duration → Capability
  pipelining : Capability
  expire : Expiration → Capability
  uidl : Capability
  implementation : Text → Capability
  stls : Capability
  other : Text → Capability

abbrev pub Capabilities : Type 0
Capabilities = List Capability

pub record Status : Type 0 where
  pub success : Bool

-- `Response` of response/mod.rs, with the feature `sasl`.
pub data Response : Type 0 where
  stat : Stat → Response
  list : ScanList → Response
  bytes : Bytes → Response
  uidl : UidlResponse → Response
  capability : Capabilities → Response
  message : Text → Response
  challenge : Text → Response
  err : Text → Response
