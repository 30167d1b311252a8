-- ===== src/Pop2.antt =====
-- The crate async-pop2 (async-pop2/src): a POP3 client over an asynchronous stream.
pub mod Error
pub mod Command
pub mod Request
pub mod Types
pub mod Response
pub mod Env
pub mod Nom
pub mod Parser
pub mod Buffer
pub mod Queue
pub mod Stream
pub mod Client
pub mod Sasl
