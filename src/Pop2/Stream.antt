-- ===== src/Pop2/Stream.antt =====
-- `PopStream` of async-pop2/src/stream.rs: requests go out as lines, and what comes in is parsed as
-- soon as the buffer may hold a whole response. Logging (`trace!`) is left out.
pub mod Read
pub mod Responds
pub mod Faults
pub mod Ends
pub mod Refused
pub mod Progress
use getemail.Base.{
  ℕ, zero, suc, ◌+◌, ◌-◌, Bool, true, false, List, [], ◌∷◌, ◌++◌, Bytes, Option, none, some, length,
  take, ltb, if◌then◌else◌,
}
use getemail.Base.Exec.{
  Outcome, ok, err, panic, stuck, Exec, pure, fail, abort, gets, modify, lift, ◌>>=◌, ◌>>◌,
}
use getemail.Pop2.Command.{Command}
use getemail.Pop2.Request
use getemail.Pop2.Request.{Request}
use getemail.Pop2.Response.{Response}
use getemail.Pop2.Error.{ErrorKind, io, invalid_response, missing_request, server_error}
use getemail.Pop2.Buffer
use getemail.Pop2.Buffer.{Buffer}
use getemail.Pop2.Queue
use getemail.Pop2.Queue.{CommandQueue}
use getemail.Pop2.Env.{
  Env, Needed, unknown, size, IResult, done, incomplete, error, failure, WriteResult, written,
}

pub record PopStream (env : Env) : Type 0 where
  pub last_activity : ℕ
  pub buffer : Buffer
  pub decode_needs : ℕ
  pub queue : CommandQueue
  pub stream : env.Socket

abbrev pub Method : Env → Type 0 → Type 0
Method env A = Exec ErrorKind (PopStream env) A

-- constants.rs
abbrev pub end_of_line : Bytes
end_of_line = 0x0d ∷ 0x0a ∷ []

module _ {env : Env} {A : Type 0} where
  -- A method of a field.
  unfoldable pub on_buffer : Exec ErrorKind Buffer A → Method env A
  on_buffer m s = let (r, b) = m s.buffer in (r, record s { buffer = b })

  unfoldable pub on_queue : Exec ErrorKind CommandQueue A → Method env A
  on_queue m s = let (r, q) = m s.queue in (r, record s { queue = q })

-- `?` on the result of a write.
abbrev written_or_io :
    {env : Env} → WriteResult × env.Socket → PopStream env → Outcome ErrorKind Unit × PopStream env
written_or_io (written, socket) s = (ok tt, record s { stream = socket })
written_or_io (WriteResult.failed e, socket) s = (err (io e), record s { stream = socket })

module _ (env : Env) where
  unfoldable pub new : env.Socket → PopStream env
  new stream = record {
    last_activity = env.now stream;
    buffer = Buffer.new env;
    queue = Queue.new;
    decode_needs = 0;
    stream = stream;
  }

  unfoldable pub write : Bytes → Method env Unit
  write bs s = written_or_io (env.write_all s.stream bs) s

  unfoldable pub send_bytes : Bytes → Method env Unit
  unfolding write
  send_bytes buf = do
    modify (λ s. record s { last_activity = env.now s.stream })
    write buf
    write end_of_line
    λ s. written_or_io (env.flush s.stream) s

  unfoldable pub encode : Request → Method env Unit
  unfolding send_bytes
  encode request = send_bytes (Request.display env.base64_encode request)

  -- The part of `decode` behind the parser; `used` is the buffer that was taken out.
  after_parse : Bytes → IResult Response → Method env (Option Response)
  unfolding on_queue on_buffer
  after_parse used (done remaining response) s =
      (do
        on_queue Queue.mark_current_as_done
        on_buffer (Buffer.reset_with env remaining)
        pure (some response))
        s
  after_parse used (incomplete (size min)) s = (
    ok none,
    record s { decode_needs = s.buffer.cursor + min; buffer = Buffer.return_to s.buffer used },
  )
  after_parse used (incomplete unknown) s =
      (ok none, record s { decode_needs = 0; buffer = Buffer.return_to s.buffer used })
  after_parse used error s = fail invalid_response s
  after_parse used failure s = fail invalid_response s

  decode_with : Bytes → Option Command → Method env (Option Response)
  unfolding after_parse
  decode_with used none s =
      fail missing_request (record s { buffer = Buffer.return_to s.buffer used })
  decode_with used (some command) s =
      if ltb (length used) s.buffer.cursor
      then abort s
      else after_parse used (env.from_bytes (take s.buffer.cursor used) command) s

  unfoldable pub decode : Method env (Option Response)
  unfolding decode_with
  decode s =
      if ltb s.buffer.cursor s.decode_needs
      then (ok none, s)
      else (let (used, buffer) = Buffer.replace env s.buffer in
          decode_with used (Queue.current s.queue) (record s { buffer = buffer }))
