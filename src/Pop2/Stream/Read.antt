-- ===== src/Pop2/Stream/Read.antt =====
-- `poll_next` and `read_response` of `PopStream` (async-pop2/src/stream.rs). The loop of `poll_next`
-- and the polling by `.await` have no bound in the source; here each takes the same fuel.
use getemail.Base.{ℕ, zero, suc, Option, none, some, length}
use getemail.Base.Exec.{ok, err, stuck, pure, fail, gets, modify, lift, ◌>>=◌, ◌>>◌}
use getemail.Pop2.Command.{Command}
use getemail.Pop2.Response.{Response}
use getemail.Pop2.Error.{io, server_error}
use getemail.Pop2.Buffer
use getemail.Pop2.Queue
use getemail.Pop2.Env.{Env, ReadEvent, not_ready, received}
use getemail.Pop2.Stream.{Method, on_buffer, decode}

-- `Poll` of the standard library.
pub data Poll (A : Type 0) : Type 0 where
  ready : A → Poll A
  pending : Poll A

module _ (env : Env) where
  after_read : ReadEvent × env.Socket → Method env (Poll ℕ)
  after_read (not_ready, socket) s = (ok pending, record s { stream = socket })
  after_read (ReadEvent.failed e, socket) s = (err (io e), record s { stream = socket })
  after_read (received bs, socket) s = (
    ok (ready (length bs)),
    record s { stream = socket; buffer = Buffer.fill_unused s.buffer bs },
  )

  -- `ready!(stream.poll_read(cx, buf))?` on the unused part of the buffer: how many bytes came.
  unfoldable pub read_chunk : Method env (Poll ℕ)
  unfolding after_read on_buffer
  read_chunk = do free ← on_buffer Buffer.unused; λ s. after_read (env.poll_read s.stream free) s

  -- One pass of the loop, up to the end of its `decode`; `ready none` goes round again.
  unfoldable pub fill : Method env (Poll (Option Response))
  unfolding read_chunk
  fill = do
    needs ← gets (λ s. s.decode_needs)
    on_buffer (Buffer.ensure_capacity env needs)
    polled ← read_chunk
    elim polled [
      | pending ↦ pure pending
      | ready bytes_read ↦ do
        modify (λ s. record s { buffer = Buffer.move_cursor s.buffer bytes_read })
        response ← decode env
        pure (ready response)
    ]

  unfoldable pub fill_loop : ℕ → Method env (Poll Response)
  unfolding fill
  fill_loop zero = lift stuck
  fill_loop (suc fuel) = do
    polled ← fill
    elim polled [
      | pending ↦ pure pending
      | ready none ↦ fill_loop fuel
      | ready (some response) ↦ pure (ready response)
    ]

  unfoldable pub poll_next : ℕ → Method env (Poll Response)
  unfolding fill_loop
  poll_next fuel = do
    response ← decode env
    elim response [ none ↦ fill_loop fuel | some response ↦ pure (ready response) ]

  -- `self.next().await`
  unfoldable pub next : ℕ → ℕ → Method env Response
  unfolding poll_next
  next zero fuel = lift stuck
  next (suc polls) fuel = do
    polled ← poll_next fuel
    elim polled [ pending ↦ next polls fuel | ready response ↦ pure response ]

  unfoldable pub check_response : Response → Method env Response
  check_response (Response.err text) = fail (server_error text)
  check_response response = pure response

  unfoldable pub read_response : ℕ → Command → Method env Response
  unfolding next check_response
  read_response fuel command = do
    modify (λ s. record s { queue = Queue.add s.queue command })
    response ← next fuel fuel
    check_response response
