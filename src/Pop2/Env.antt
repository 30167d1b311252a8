-- ===== src/Pop2/Env.antt =====
-- What the client uses and does not implement: the socket and clock of the runtime (tokio), the
-- byte buffers of the crate `bytes`, and `STANDARD` of the crate `base64`. `from_bytes` is the
-- interface to the parser (`Response::from_bytes` of async-pop2/src/response/mod.rs).
use getemail.Base.{ℕ, ◌≤◌, ◌≡◌, Bytes, Option, length, take}
use getemail.Pop2.Command.{Command}
use getemail.Pop2.Error.{IoError}
use getemail.Pop2.Response.{Response}

-- `nom::Needed`, and `nom::IResult<&[u8], A>`.
pub data Needed : Type 0 where
  unknown : Needed
  size : ℕ → Needed

pub data IResult (A : Type 0) : Type 0 where
  done : Bytes → A → IResult A
  incomplete : Needed → IResult A
  error failure : IResult A

-- The answer of one `poll_read`: not ready, an error, or the bytes that were put into the buffer
-- (none at the end of the stream).
pub data ReadEvent : Type 0 where
  not_ready : ReadEvent
  failed : IoError → ReadEvent
  received : Bytes → ReadEvent

pub data WriteResult : Type 0 where
  written : WriteResult
  failed : IoError → WriteResult

pub record Env : Type 1 where
  -- The stream `S` and all that stands behind it.
  pub Socket : Type 0
  pub now : Socket → ℕ
  pub write_all : Socket → Bytes → WriteResult × Socket
  pub flush : Socket → WriteResult × Socket
  -- A read into a buffer with so many free bytes.
  pub poll_read : Socket → ℕ → ReadEvent × Socket
  -- `BytesMut::zeroed` and `BytesMut::resize`.
  pub zeroed : ℕ → Bytes
  pub resize : Bytes → ℕ → ℕ → Bytes
  pub base64_encode : Bytes → Bytes
  pub base64_decode : Bytes → Option Bytes
  pub from_bytes : Bytes → Command → IResult Response

-- The documented behaviour of the byte buffers.
pub record LawfulBuffers (env : Env) : Type 0 where
  pub length-zeroed : (n : ℕ) → length (env.zeroed n) ≡ n
  pub length-resize : (bs : Bytes) (n v : ℕ) → length (env.resize bs n v) ≡ n
  pub take-resize :
      (bs : Bytes) (n v k : ℕ)
      → k ≤ length bs
      → length bs ≤ n
      → take k (env.resize bs n v) ≡ take k bs
