-- ===== src/Pop2/Stream/Ends.antt =====
-- The loop of `poll_next` ends while the connection is open, whatever the server sends and however it is parsed.
use getemail.Base.{
  ℕ, zero, suc, ◌+◌, ◌≤◌, ◌<◌, ◌≡◌, ◌≢◌, ◌⊎◌, inl, inr, refl, ap, sym, subst, ◌-◌, arith, [], ◌∷◌,
  Bytes, Option, none, some, ltb, Bool-cases, take, false, Option-cases, length, List,
}
use getemail.Base.Exec.{Outcome, ok, err, panic, stuck, continue, pure}
use getemail.Pop2.Command.{Command}
use getemail.Pop2.Response.{Response}
use getemail.Pop2.Error.{ErrorKind, io, response_too_large}
use getemail.Pop2.Queue
use getemail.Pop2.Queue.{CommandQueue}
use getemail.Pop2.Buffer
use getemail.Pop2.Buffer.{max_size}
use getemail.Pop2.Buffer.Bounds.{IsValid, ensure_capacity-HasRoom}
use getemail.Pop2.Buffer.Contents.{received, unread-received}
use getemail.Pop2.Env.{
  Env, LawfulBuffers, unknown, size, IResult, done, incomplete, error, failure, not_ready,
}
use getemail.Pop2.Env
use getemail.Pop2.Stream.{Method, PopStream, on_queue, on_buffer, after_parse, decode_with, decode}
use getemail.Pop2.Stream.Read.{Poll, ready, pending, fill, fill_loop, poll_next}

-- The outcomes of `decode`, and of a pass of the loop, behind which the loop does not go on.
abbrev Stops : Outcome ErrorKind (Option Response) → Type 0
Stops (ok none) = ⊥
Stops stuck = ⊥
Stops _ = Unit {0}

abbrev StopsLoop : Outcome ErrorKind (Poll (Option Response)) → Type 0
StopsLoop (ok (ready none)) = ⊥
StopsLoop stuck = ⊥
StopsLoop _ = Unit {0}

module _ (env : Env) where
  -- While the connection is open, a read that is ready brings a byte, or an error.
  pub record Open (P : env.Socket → Type 0) : Type 0 where
    pub step :
        (socket : env.Socket) (free : ℕ)
        → 0 < free
        → P socket
        → ((socket' : env.Socket) × (env.poll_read socket free ≡ (not_ready, socket')) × P socket')
          ⊎ (((e : ℕ) × (socket' : env.Socket) × (env.poll_read socket free
                  ≡ (Env.failed e, socket')))
              ⊎ ((chunk : Bytes) × (socket' : env.Socket) × (env.poll_read socket free
                    ≡ (Env.received chunk, socket'))
                  × (0 < length chunk)
                  × (length chunk ≤ free)
                  × P socket'))

  -- What is not yet a response leaves the buffer as it is.
  abbrev GoesOn : PopStream env → Outcome ErrorKind (Option Response) × PopStream env → Type 0
  GoesOn s r =
      ((s' : PopStream env) × (r ≡ (ok none, s')) × (s'.buffer ≡ s.buffer) × (s'.stream ≡ s.stream))
      ⊎ Stops r.0

  parsed-Stops :
      (remaining : Bytes) (response : Response) (used : Bytes) (s : PopStream env)
      → Stops (after_parse env used (done remaining response) s).0
  unfolding after_parse on_queue on_buffer Queue.mark_current_as_done Queue.remove_first
      Buffer.reset_with
  parsed-Stops remaining response used s = by_queue s.queue.list refl
    where
      by_queue :
          (l : List Command)
          → s.queue.list ≡ l
          → Stops (after_parse env used (done remaining response) s).0
      by_queue [] e = rw e tt
      by_queue (c ∷ l) e =
          elim (Bool-cases (ltb (length (env.zeroed Buffer.chunk_size)) (length remaining))) [
            | inl long ↦ rw (e, long) tt
            | inr fits ↦ rw (e, fits) tt
          ]

  after_parse-GoesOn :
      (p : IResult Response) (s : PopStream env)
      → GoesOn s
          (after_parse env s.buffer.inner p (record s { buffer = (Buffer.replace env s.buffer).1 }))
  unfolding after_parse Buffer.return_to Buffer.replace
  after_parse-GoesOn (done remaining response) s = inr (
      parsed-Stops remaining response s.buffer.inner
        (record s { buffer = (Buffer.replace env s.buffer).1 }))
  after_parse-GoesOn (incomplete (size min)) s = inl (_, refl, refl, refl)
  after_parse-GoesOn (incomplete unknown) s = inl (_, refl, refl, refl)
  after_parse-GoesOn error s = inr tt
  after_parse-GoesOn failure s = inr tt

  decode-GoesOn : (s : PopStream env) → IsValid s.buffer → GoesOn s (decode env s)
  unfolding decode decode_with Buffer.replace
  decode-GoesOn s v = elim (Bool-cases (ltb s.buffer.cursor s.decode_needs)) [
    | inl early ↦ inl (s, ground arith, refl, refl)
    | inr late ↦ elim (Option-cases (Queue.current s.queue)) [
      | inl e ↦ inr (rw (late, e) tt)
      | inr (command, e) ↦
          rw (late, e, within)
            (after_parse-GoesOn (env.from_bytes (take s.buffer.cursor s.buffer.inner) command) s)
    ]
  ]
    where
      within : ltb (length s.buffer.inner) s.buffer.cursor ≡ false
      within = ground (arith, v.within)

  -- What a pass of the loop comes to: it ends the loop, or the buffer holds more bytes.
  abbrev Grows :
      (env.Socket → Type 0)
      → PopStream env
      → Outcome ErrorKind (Poll (Option Response)) × PopStream env
      → Type 0
  Grows P s r =
      ((s' : PopStream env) × (r ≡ (ok (ready none), s'))
        × IsValid s'.buffer
        × P s'.stream
        × (s.buffer.cursor < s'.buffer.cursor))
      ⊎ StopsLoop r.0

module _ (env : Env) (laws : LawfulBuffers env) (P : env.Socket → Type 0)
    (still_open : Open env P) where
  decoded-Grows :
      (s : PopStream env) (r : Outcome ErrorKind (Option Response) × PopStream env)
      (t : PopStream env)
      → GoesOn env t r
      → IsValid t.buffer
      → P t.stream
      → s.buffer.cursor < t.buffer.cursor
      → Grows env P s (continue r (λ response. pure (ready response)))
  decoded-Grows s r t (inl (t', e, same, same')) v p more = inl (
    t',
    ap (λ r. continue r (λ response. pure (ready response))) e,
    rw same v,
    rw same' p,
    rw same more,
  )
  decoded-Grows s (ok (some response), t') t (inr stop) v p more = inr tt
  decoded-Grows s (ok none, t') t (inr stop) v p more = absurd stop
  decoded-Grows s (err e, t') t (inr stop) v p more = inr tt
  decoded-Grows s (panic, t') t (inr stop) v p more = inr tt
  decoded-Grows s (stuck, t') t (inr stop) v p more = absurd stop

  Grows-eq :
      (s : PopStream env) {r r' : Outcome ErrorKind (Poll (Option Response)) × PopStream env}
      → r ≡ r'
      → Grows env P s r'
      → Grows env P s r
  Grows-eq s e g = subst (Grows env P s) (sym e) g

  fill-Grows : (s : PopStream env) → IsValid s.buffer → P s.stream → Grows env P s (fill env s)
  unfolding fill Buffer.unused
  fill-Grows s v p = elim (ensure_capacity-HasRoom env laws s.decode_needs s.buffer v) [
    | inl (large, e) ↦ Grows-eq s {r' = (err response_too_large, s)} (ground (arith, e)) (inr tt)
    | inr (b, e, _, room) ↦
        elim (still_open.step s.stream (length b.inner - b.cursor) (omega (arith, room.free)) p) [
          | inl (socket, polled, p') ↦
              Grows-eq s {r' = (ok pending, record s { buffer = b; stream = socket })}
                (ground (arith, room.free)) (inr tt)
          | inr (inl (x, socket, polled)) ↦
              Grows-eq s {r' = (err (io x), record s { buffer = b; stream = socket })}
                (ground (arith, room.free)) (inr tt)
          | inr (inr (chunk, socket, polled, more, fits, p')) ↦
              let t : PopStream env = record s { buffer = received b chunk; stream = socket } in
              let (valid, moved, _) =
                unread-received b chunk room.valid (omega (arith, room.free)) in
              Grows-eq s {r' = continue (decode env t) (λ response. pure (ready response))}
                (ground (arith, room.free))
                (decoded-Grows s (decode env t) t (decode-GoesOn env t valid) valid p'
                  (omega (arith, moved, room.same_cursor, more)))
        ]
  ]

  abbrev then_again : ℕ → Poll (Option Response) → Method env (Poll Response)
  then_again fuel pending = pure pending
  then_again fuel (ready none) = fill_loop env fuel
  then_again fuel (ready (some response)) = pure (ready response)

  stopped :
      (r : Outcome ErrorKind (Poll (Option Response)) × PopStream env)
      (k : Poll (Option Response) → Method env (Poll Response))
      → StopsLoop r.0
      → ((t : PopStream env) → (k pending t).0 ≢ stuck)
      → ((response : Response) (t : PopStream env) → (k (ready (some response)) t).0 ≢ stuck)
      → (continue r k).0 ≢ stuck
  stopped (ok pending, t) k stop h h' = h t
  stopped (ok (ready none), t) k stop h h' = absurd stop
  stopped (ok (ready (some response)), t) k stop h h' = h' response t
  stopped (err e, t) k stop h h' = λ e'. cc
  stopped (panic, t) k stop h h' = λ e'. cc
  stopped (stuck, t) k stop h h' = absurd stop

  after_pass :
      (fuel : ℕ) (s : PopStream env)
      → ((s' : PopStream env)
          → IsValid s'.buffer
          → P s'.stream
          → s.buffer.cursor < s'.buffer.cursor
          → (fill_loop env fuel s').0 ≢ stuck)
      → Grows env P s (fill env s)
      → (fill_loop env (suc fuel) s).0 ≢ stuck
  unfolding fill_loop
  after_pass fuel s again (inl (s', e, v, p, more)) = rw e (again s' v p more)
  after_pass fuel s again (inr stop) =
      stopped (fill env s) (then_again fuel) stop (λ t h. cc) (λ response t h. cc)

  fill_loop-Open :
      (fuel : ℕ) (s : PopStream env)
      → IsValid s.buffer
      → P s.stream
      → max_size < fuel + s.buffer.cursor
      → (fill_loop env fuel s).0 ≢ stuck
  fill_loop-Open zero s v p enough = absurd (omega (arith, v.within, v.bounded))
  fill_loop-Open (suc fuel) s v p enough =
      after_pass fuel s
        (λ s' v' p' more. fill_loop-Open fuel s' v' p' (omega (arith, more, enough)))
        (fill-Grows s v p)

  abbrev then_fill : ℕ → Option Response → Method env (Poll Response)
  then_fill fuel none = fill_loop env fuel
  then_fill fuel (some response) = pure (ready response)

  decoded_ends :
      (fuel : ℕ) (r : Outcome ErrorKind (Option Response) × PopStream env)
      → Stops r.0
      → (continue r (then_fill fuel)).0 ≢ stuck
  decoded_ends fuel (ok none, t) stop = absurd stop
  decoded_ends fuel (ok (some response), t) stop = λ h. cc
  decoded_ends fuel (err e, t) stop = λ h. cc
  decoded_ends fuel (panic, t) stop = λ h. cc
  decoded_ends fuel (stuck, t) stop = absurd stop

  -- While the connection is open, that is, while a read that is ready brings a byte or an error, the loop of
  -- `poll_next` ends, whatever the server sends and however it is parsed: with a response, an error, a panic, or
  -- because the socket is not ready. A valid buffer has room for at most `max_size` bytes, so more passes than are
  -- missing from that are enough.
  pub poll_next-Open :
      (fuel : ℕ) (s : PopStream env)
      → IsValid s.buffer
      → P s.stream
      → max_size < fuel + s.buffer.cursor
      → (poll_next env fuel s).0 ≢ stuck
  unfolding poll_next
  poll_next-Open fuel s v p enough = elim (decode-GoesOn env s v) [
    | inl (t, e, same, same') ↦
        let ends : (fill_loop env fuel t).0 ≢ stuck =
          fill_loop-Open fuel t (rw same v) (rw same' p) (rw same enough) in
        rw e ends
    | inr stop ↦ decoded_ends fuel (decode env s) stop
  ]
