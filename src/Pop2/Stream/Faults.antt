-- ===== src/Pop2/Stream/Faults.antt =====
-- Where the read loop of `PopStream` (async-pop2/src/stream.rs) never ends, and what a refused
-- response leaves behind.
use getemail.Base.{
  append-nil, subst, ℕ, zero, suc, ◌+◌, ◌-◌, ◌≤◌, ◌<◌, ◌≡◌, ◌⊎◌, inl, inr, refl, ap, ◌∙◌, arith, [],
  ◌∷◌, ◌++◌, Bytes, none, length, ltb, Bool-cases,
}
use getemail.Base.Exec.{ok, stuck}
use getemail.Pop2.Command.{Command}
use getemail.Pop2.Queue
use getemail.Pop2.Buffer
use getemail.Pop2.Buffer.{max_size, chunk_size}
use getemail.Pop2.Buffer.Bounds.{IsValid, unread, ensure_capacity-HasRoom}
use getemail.Pop2.Buffer.Contents.{received, unread-received}
use getemail.Pop2.Env.{
  Env, LawfulBuffers, unknown, size, IResult, incomplete, error, failure, not_ready,
}
use getemail.Pop2.Env
use getemail.Pop2.Stream.{PopStream, decode}
use getemail.Pop2.Stream.Progress.{cursor_lem}
use getemail.Pop2.Stream.Read.{ready, pending, fill, fill_loop, poll_next, next, read_response}

module _ (env : Env) where
  -- A predicate that every pass of the loop keeps, with no response.
  record Hangs (H : PopStream env → Type 0) : Type 0 where
    decodes :
        (s : PopStream env) → H s → (s' : PopStream env) × (decode env s ≡ (ok none, s')) × H s'
    fills :
        (s : PopStream env)
        → H s
        → ((s' : PopStream env) × (fill env s ≡ (ok pending, s')) × H s')
          ⊎ ((s' : PopStream env) × (fill env s ≡ (ok (ready none), s')) × H s')

  -- The socket will give at most `k` more bytes, at the end of the stream none.
  pub record Quiet (P : ℕ → env.Socket → Type 0) : Type 0 where
    pub step :
        (k : ℕ) (socket : env.Socket) (free : ℕ)
        → P k socket
        → ((socket' : env.Socket) × (env.poll_read socket free ≡ (not_ready, socket'))
            × P k socket')
          ⊎ ((chunk : Bytes) × (k' : ℕ) × (socket' : env.Socket) × (env.poll_read socket free
                ≡ (Env.received chunk, socket'))
              × (length chunk + k' ≤ k)
              × (length chunk ≤ free)
              × P k' socket')

module _ {env : Env} {H : PopStream env → Type 0} (hangs : Hangs env H) where
  fill_loop_hangs :
      (fuel : ℕ) (s : PopStream env)
      → H s
      → ((fill_loop env fuel s).0 ≡ stuck)
        ⊎ ((s' : PopStream env) × (fill_loop env fuel s ≡ (ok pending, s')) × H s')
  unfolding fill_loop
  fill_loop_hangs zero s h = inl refl
  fill_loop_hangs (suc fuel) s h = elim (hangs.fills s h) [
    | inl (s', e, h') ↦ inr (s', rw e, h')
    | inr (s', e, h') ↦ rw e (fill_loop_hangs fuel s' h')
  ]

  poll_next_hangs :
      (fuel : ℕ) (s : PopStream env)
      → H s
      → ((poll_next env fuel s).0 ≡ stuck)
        ⊎ ((s' : PopStream env) × (poll_next env fuel s ≡ (ok pending, s')) × H s')
  unfolding poll_next
  poll_next_hangs fuel s h =
      let (s', e, h') = hangs.decodes s h in rw e (fill_loop_hangs fuel s' h')

  next_hangs : (polls fuel : ℕ) (s : PopStream env) → H s → (next env polls fuel s).0 ≡ stuck
  unfolding next
  next_hangs zero fuel s h = refl
  next_hangs (suc polls) fuel s h = elim (poll_next_hangs fuel s h) [
    | inl e ↦ ground (arith, e)
    | inr (s', e, h') ↦ rw e (next_hangs polls fuel s' h')
  ]

  read_response_hangs :
      (fuel : ℕ) (command : Command) (s : PopStream env)
      → H (record s { queue = Queue.add s.queue command })
      → (read_response env fuel command s).0 ≡ stuck
  unfolding read_response
  read_response_hangs fuel command s h =
      ground (arith, next_hangs fuel fuel (record s { queue = Queue.add s.queue command }) h)

decode_early :
    (env : Env) (s : PopStream env) → s.buffer.cursor < s.decode_needs → decode env s ≡ (ok none, s)
unfolding decode
decode_early env s h = ground arith

module _ (env : Env) (laws : LawfulBuffers env) (P : ℕ → env.Socket → Type 0)
    (quiet : Quiet env P) where
  -- More bytes are awaited than will ever come.
  record Starves (s : PopStream env) : Type 0 where
    valid : IsValid s.buffer
    k : ℕ
    short : s.buffer.cursor + k < s.decode_needs
    small : s.decode_needs ≤ max_size
    holds : P k s.stream

  Starves-fills :
      (s : PopStream env)
      → Starves s
      → ((s' : PopStream env) × (fill env s ≡ (ok pending, s')) × Starves s')
        ⊎ ((s' : PopStream env) × (fill env s ≡ (ok (ready none), s')) × Starves s')
  unfolding fill Buffer.unused
  Starves-fills s h = elim (ensure_capacity-HasRoom env laws s.decode_needs s.buffer h.valid) [
    | inl (large, _) ↦ absurd (ground (arith, h.short, h.small))
    | inr (b, e, _, room) ↦ elim (quiet.step h.k s.stream (length b.inner - b.cursor) h.holds) [
      | inl (socket, p, holds) ↦ inl (
        record s { buffer = b; stream = socket },
        ground (arith, room.free),
        record {
          valid = room.valid;
          k = h.k;
          short = omega (arith, h.short, room.same_cursor);
          small = h.small;
          holds = holds;
        },
      )
      | inr (chunk, k', socket, p, fewer, fits, holds) ↦
          let (valid, moved, _) = unread-received b chunk room.valid (omega (arith, room.free)) in
          let t : PopStream env = record s { buffer = received b chunk; stream = socket } in
          let early = decode_early env t (omega (arith, h.short, room.same_cursor, moved)) in
          inr (
            t,
            ground (arith, room.free, early),
            record {
              valid = valid;
              k = k';
              short = omega (arith, h.short, room.same_cursor, moved);
              small = h.small;
              holds = holds;
            },
          )
    ]
  ]

  -- If an earlier response has left `decode_needs` above all that is there and will ever come, the
  -- next response is awaited for ever, also when it has come whole.
  pub read_response_starves :
      (fuel : ℕ) (command : Command) (s : PopStream env) (k : ℕ)
      → IsValid s.buffer
      → P k s.stream
      → s.buffer.cursor + k < s.decode_needs
      → s.decode_needs ≤ max_size
      → (read_response env fuel command s).0 ≡ stuck
  read_response_starves fuel command s k valid holds short small =
      read_response_hangs
        (record {
          decodes = λ t h. (t, decode_early env t (omega (arith, h.short)), h);
          fills = Starves-fills;
        })
        fuel command s
        (record { valid = valid; k = k; short = short; small = small; holds = holds })

module _ (env : Env) (laws : LawfulBuffers env) (P : ℕ → env.Socket → Type 0) (quiet : Quiet env P)
    (command : Command) (part : Bytes)
    (unfinished : (env.from_bytes part command ≡ incomplete unknown)
      ⊎ ((min : ℕ) × (env.from_bytes part command ≡ incomplete (size min))
          × (length part + min ≤ max_size))) where
  -- The stream has ended within a response.
  record AtEnd (s : PopStream env) : Type 0 where
    valid : IsValid s.buffer
    bytes : unread s.buffer ≡ part
    asked : s.queue.list ≡ command ∷ []
    needs : s.decode_needs ≤ max_size
    small : length part < max_size
    holds : P 0 s.stream

  AtEnd-decodes :
      (s : PopStream env)
      → AtEnd s
      → (s' : PopStream env) × (decode env s ≡ (ok none, s')) × AtEnd s'
  unfolding decode Buffer.replace Buffer.return_to Queue.current
  AtEnd-decodes s h =
      let at_end = cursor_lem s.buffer h.valid h.bytes in
      let parsed = ap (λ bs. env.from_bytes bs command) h.bytes in
      elim (Bool-cases (ltb s.buffer.cursor s.decode_needs)) [
        | inl early ↦ (s, ground arith, h)
        | inr late ↦ elim unfinished [
          | inl whole ↦ (
            record s { decode_needs = 0 },
            ground (arith, h.valid, h.asked),
            awaits s 0 h (omega arith),
          )
          | inr (min, asks, enough) ↦ (
            record s { decode_needs = s.buffer.cursor + min },
            ground (arith, h.valid, h.asked),
            awaits s (s.buffer.cursor + min) h (omega arith),
          )
        ]
      ]
    where
      awaits :
          (t : PopStream env) (n : ℕ)
          → AtEnd t
          → n ≤ max_size
          → AtEnd (record t { decode_needs = n })
      awaits t n h small = record {
        valid = h.valid;
        bytes = h.bytes;
        asked = h.asked;
        needs = small;
        small = h.small;
        holds = h.holds;
      }

  AtEnd-fills :
      (s : PopStream env)
      → AtEnd s
      → ((s' : PopStream env) × (fill env s ≡ (ok pending, s')) × AtEnd s')
        ⊎ ((s' : PopStream env) × (fill env s ≡ (ok (ready none), s')) × AtEnd s')
  unfolding fill Buffer.unused
  AtEnd-fills s h =
      let at_end = cursor_lem s.buffer h.valid h.bytes in
      elim (ensure_capacity-HasRoom env laws s.decode_needs s.buffer h.valid) [
        | inl (large, _) ↦ absurd (ground (arith, h.needs, h.small))
        | inr (b, e, _, room) ↦ elim (quiet.step 0 s.stream (length b.inner - b.cursor) h.holds) [
          | inl (socket, p, holds) ↦ inl (
            record s { buffer = b; stream = socket },
            ground (arith, room.free),
            record {
              valid = room.valid;
              bytes = room.same_unread ∙ h.bytes;
              asked = h.asked;
              needs = h.needs;
              small = h.small;
              holds = holds;
            },
          )
          | inr ([], k', socket, p, fewer, fits, holds) ↦
              let (valid, moved, joined) =
                unread-received b [] room.valid (omega (arith, room.free)) in
              let last : k' ≡ 0 = omega arith in
              let t : PopStream env = record s { buffer = received b []; stream = socket } in
              let (t', e', h') = AtEnd-decodes t (record {
                valid = valid;
                bytes = joined ∙ append-nil (unread b) ∙ room.same_unread ∙ h.bytes;
                asked = h.asked;
                needs = h.needs;
                small = h.small;
                holds = subst (λ n. P n socket) last holds;
              }) in
              inr (t', ground (arith, room.free, e'), h')
          | inr (x ∷ chunk, k', socket, p, fewer, fits, holds) ↦ absurd (omega arith)
        ]
      ]

  -- If the connection ends within a response, the read loop runs for ever: it does not see the end.
  pub read_response_end_of_stream :
      (fuel : ℕ) (s : PopStream env)
      → IsValid s.buffer
      → unread s.buffer ≡ part
      → s.queue.list ≡ []
      → s.decode_needs ≤ max_size
      → length part < max_size
      → P 0 s.stream
      → (read_response env fuel command s).0 ≡ stuck
  read_response_end_of_stream fuel s valid bytes idle needs small holds =
      read_response_hangs (record { decodes = AtEnd-decodes; fills = AtEnd-fills }) fuel command s
        (record {
          valid = valid;
          bytes = bytes;
          asked = unfold Queue.add in ap (λ l. l ++ command ∷ []) idle;
          needs = needs;
          small = small;
          holds = holds;
        })
