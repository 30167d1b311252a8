-- ===== src/Pop2/Stream/Progress.antt =====
-- One response is read from the stream, in whatever pieces it arrives.
use getemail.Base.{
  Bool-cases, ℕ, zero, suc, ◌+◌, ◌-◌, ◌≤◌, ◌<◌, ◌≡◌, ◌≢◌, ◌⊎◌, inl, inr, refl, ap, ◌∙◌, arith, [],
  ◌∷◌, ◌++◌, Bytes, none, some, length, ltb, length-append, length-take, ◌%◌, sym, append_assoc,
}
use getemail.Base.Exec.{ok, pure, ◌>>=◌}
use getemail.Pop2.Command.{Command}
use getemail.Pop2.Response.{Response}
use getemail.Pop2.Queue
use getemail.Pop2.Buffer
use getemail.Pop2.Buffer.{max_size, chunk_size}
use getemail.Pop2.Buffer.Bounds.{IsValid, unread, HasRoom, ensure_capacity-HasRoom}
use getemail.Pop2.Buffer.Contents.{received, unread-received, unread-reset_with}
use getemail.Pop2.Env.{
  Env, LawfulBuffers, Needed, unknown, size, IResult, done, incomplete, ReadEvent, not_ready,
}
use getemail.Pop2.Env
use getemail.Pop2.Stream.{PopStream, decode}
use getemail.Pop2.Stream.Read.{ready, pending, fill}

-- What may be left to come where a piece ends: `May` says it of the bytes behind the piece.
abbrev pub Anywhere : Bytes → Type 0
Anywhere rest = Unit {0}

-- The space of a poll ends where a piece may end.
abbrev pub SpaceEnds : (Bytes → Type 0) → ℕ → Bytes → Type 0
SpaceEnds May free bs =
    (front back : Bytes) → bs ≡ front ++ back → length front ≡ free → back ≢ [] → May back

module _ (env : Env) where
  -- Within `n` polls the socket hands over exactly these bytes, in pieces that fit into the space
  -- that each poll offers and end where `May` says, if the space does; it may say between them that it
  -- is not ready. With the last byte it is left as `Then` says.
  abbrev pub Delivers : (Bytes → Type 0) → (env.Socket → Type 0) → ℕ → env.Socket → Bytes → Type 0
  Delivers May Then zero socket bs = (bs ≡ []) × Then socket
  Delivers May Then (suc n) socket bs =
      ((bs ≡ []) × Then socket)
      ⊎ ((bs ≢ [])
          × ((free : ℕ)
              → 0 < free
              → SpaceEnds May free bs
              → ((socket' : env.Socket) × (env.poll_read socket free ≡ (not_ready, socket'))
                  × Delivers May Then n socket' bs)
                ⊎ ((chunk : Bytes) × (rest : Bytes) × (socket' : env.Socket) × (env.poll_read socket
                        free
                      ≡ (Env.received chunk, socket'))
                    × (bs ≡ chunk ++ rest)
                    × (length chunk ≤ free)
                    × (rest ≢ [] → May rest)
                    × Delivers May Then n socket' rest)))

  -- Nothing is said of the socket that is left.
  abbrev pub Anything : env.Socket → Type 0
  Anything socket = Unit {0}

  -- Nothing is left to come.
  pub left-Delivers :
      (May : Bytes → Type 0) (Then : env.Socket → Type 0) (n : ℕ) (socket : env.Socket)
      → Delivers May Then n socket []
      → Then socket
  left-Delivers May Then zero socket d = d.1
  left-Delivers May Then (suc n) socket (inl d) = d.1
  left-Delivers May Then (suc n) socket (inr d) = absurd (d.0 refl)

  -- What the stream needs of the parser, for one response `full` to `command`: it is parsed whole,
  -- a part of it that ends where `May` says is incomplete, and asks for no bytes behind the first `bound`
  -- ones, which are not more than there are. The chunks of the buffer end where `May` says.
  pub record Replies (May : Bytes → Type 0) (command : Command) (full : Bytes) (response : Response)
      (bound : ℕ) : Type 0 where
    pub complete : env.from_bytes full command ≡ done [] response
    pub partial :
        (part rest : Bytes)
        → full ≡ part ++ rest
        → rest ≢ []
        → May rest
        → (env.from_bytes part command ≡ incomplete unknown)
          ⊎ ((min : ℕ) × (env.from_bytes part command ≡ incomplete (size min))
              × (length part + min ≤ bound))
    pub within : bound ≤ length full
    pub fits : length full ≤ max_size
    pub chunked :
        (part rest : Bytes)
        → full ≡ part ++ rest
        → length part % chunk_size ≡ 0
        → rest ≢ []
        → May rest

  -- Nothing is asked and nothing is left over; `decode_needs` may be what the last response left.
  pub record IsIdle (bound : ℕ) (s : PopStream env) : Type 0 where
    pub valid : IsValid s.buffer
    pub no_bytes : unread s.buffer ≡ []
    pub no_command : s.queue.list ≡ []
    pub needs : s.decode_needs ≤ bound

  pub IsIdle-≤ : (b c : ℕ) (s : PopStream env) → b ≤ c → IsIdle b s → IsIdle c s
  IsIdle-≤ b c s h idle = record {
    valid = idle.valid;
    no_bytes = idle.no_bytes;
    no_command = idle.no_command;
    needs = omega (arith, idle.needs);
  }

  pub record Reading (command : Command) (bound : ℕ) (part : Bytes) (s : PopStream env)
      : Type 0 where
    pub valid : IsValid s.buffer
    pub bytes : unread s.buffer ≡ part
    pub asked : s.queue.list ≡ command ∷ []
    pub needs : s.decode_needs ≤ bound

  -- A part of the response has come, and the rest comes within `n` polls.
  pub record Waiting (May : Bytes → Type 0) (command : Command) (full : Bytes) (bound : ℕ)
      (Then : env.Socket → Type 0) (n : ℕ) (s : PopStream env) : Type 0 where
    pub part : Bytes
    pub rest : Bytes
    pub split : full ≡ part ++ rest
    pub more : rest ≢ []
    pub may : May rest
    pub reading : Reading command bound part s
    pub delivers : Delivers May Then n s.stream rest

pub cursor_lem :
    (b : Buffer.Buffer) {part : Bytes} → IsValid b → unread b ≡ part → b.cursor ≡ length part
cursor_lem b v e = omega (arith, ap length e, length-take b.cursor b.inner)

length_pos : (bs : Bytes) → bs ≢ [] → 0 < length bs
length_pos [] h = absurd (h refl)
length_pos (b ∷ bs) h = omega arith

module _ (env : Env) (laws : LawfulBuffers env) (May : Bytes → Type 0) (command : Command)
    (full : Bytes) (response : Response) (bound : ℕ)
    (replies : Replies env May command full response bound) where
  -- A part of the response is kept, and the command stays asked.
  pub decode_partial :
      (s : PopStream env) (part rest : Bytes)
      → Reading env command bound part s
      → full ≡ part ++ rest
      → rest ≢ []
      → May rest
      → (s' : PopStream env) × (decode env s ≡ (ok none, s'))
        × Reading env command bound part s'
        × (s'.stream ≡ s.stream)
  unfolding decode Buffer.replace Buffer.return_to Queue.current
  decode_partial s part rest r split more may =
      let at_end = cursor_lem s.buffer r.valid r.bytes in
      let parsed = ap (λ bs. env.from_bytes bs command) r.bytes in
      elim (Bool-cases (ltb s.buffer.cursor s.decode_needs)) [
        | inl early ↦ (s, ground arith, r, refl)
        | inr late ↦ elim (replies.partial part rest split more may) [
          | inl whole ↦ (
            record s { decode_needs = 0 },
            ground (arith, r.valid, r.asked),
            record { valid = r.valid; bytes = r.bytes; asked = r.asked; needs = omega arith },
            refl,
          )
          | inr (min, asks, enough) ↦ (
            record s { decode_needs = s.buffer.cursor + min },
            ground (arith, r.valid, r.asked),
            record { valid = r.valid; bytes = r.bytes; asked = r.asked; needs = omega arith },
            refl,
          )
        ]
      ]

  -- The whole response is returned, and the stream is idle again.
  pub decode_complete :
      (s : PopStream env)
      → Reading env command bound full s
      → (s' : PopStream env) × (decode env s ≡ (ok (some response), s'))
        × IsIdle env bound s'
        × (s'.stream ≡ s.stream)
  unfolding decode Buffer.replace Queue.current Queue.mark_current_as_done
  decode_complete s r =
      let at_end = cursor_lem s.buffer r.valid r.bytes in
      let parsed = ap (λ bs. env.from_bytes bs command) r.bytes ∙ replies.complete in
      let emptied = record s.buffer { inner = env.zeroed chunk_size } in
      let (buffer, reset, valid, _, none_left) =
        unread-reset_with env laws [] emptied (omega arith) in
      (
        record s { buffer = buffer; queue = record { list = [] } },
        ground (arith, r.valid, r.asked),
        record { valid = valid; no_bytes = none_left; no_command = refl; needs = r.needs },
        refl,
      )

  -- There is room for more of an unfinished response.
  make_room :
      (s : PopStream env) (part rest : Bytes)
      → Reading env command bound part s
      → full ≡ part ++ rest
      → rest ≢ []
      → (b : Buffer.Buffer) × (Buffer.ensure_capacity env s.decode_needs s.buffer ≡ (ok tt, b))
        × HasRoom s.decode_needs s.buffer b
  make_room s part rest r split more =
      elim (ensure_capacity-HasRoom env laws s.decode_needs s.buffer r.valid) [
        | inl (large, _) ↦ absurd (
            ground (
              arith,
              replies.fits,
              replies.within,
              cursor_lem s.buffer r.valid r.bytes,
              ap length split,
              length-append part rest,
              length_pos rest more,
            ))
        | inr (b, e, _, room) ↦ (b, e, room)
      ]

  -- One poll: not ready, or a piece of the rest stands in the buffer and is looked at.
  pub fill_piece :
      (Then : env.Socket → Type 0) (n : ℕ) (s : PopStream env) (part rest : Bytes)
      → Reading env command bound part s
      → full ≡ part ++ rest
      → rest ≢ []
      → Delivers env May Then (suc n) s.stream rest
      → ((s' : PopStream env) × (fill env s ≡ (ok pending, s'))
          × Reading env command bound part s'
          × Delivers env May Then n s'.stream rest)
        ⊎ ((chunk : Bytes) × (left : Bytes) × (s' : PopStream env) × (rest ≡ chunk ++ left)
            × (left ≢ [] → May left)
            × Reading env command bound (part ++ chunk) s'
            × Delivers env May Then n s'.stream left
            × (fill env s ≡ (decode env >>= λ r. pure (ready r)) s'))
  unfolding fill Buffer.unused
  fill_piece Then n s part rest r split more (inl d) = absurd (more d.0)
  fill_piece Then n s part rest r split more (inr (_, offers)) =
      let (b, e, room) = make_room s part rest r split more in
      let free = length b.inner - b.cursor in
      elim (offers free (omega (arith, room.free)) (space b room)) [
        | inl (socket, p, d) ↦ inl (
          record s { buffer = b; stream = socket },
          ground (arith, room.free),
          record {
            valid = room.valid;
            bytes = room.same_unread ∙ r.bytes;
            asked = r.asked;
            needs = r.needs;
          },
          d,
        )
        | inr (chunk, left, socket, p, cut, small, may, d) ↦
            let (valid, _, joined) =
              unread-received b chunk room.valid (omega (arith, room.free)) in
            inr (
              chunk,
              left,
              record s { buffer = received b chunk; stream = socket },
              cut,
              may,
              record {
                valid = valid;
                bytes = joined ∙ ap (λ bs. bs ++ chunk) (room.same_unread ∙ r.bytes);
                asked = r.asked;
                needs = r.needs;
              },
              d,
              ground (arith, room.free),
            )
      ]
    where
      space :
          (b : Buffer.Buffer)
          → HasRoom s.decode_needs s.buffer b
          → SpaceEnds May (length b.inner - b.cursor) rest
      space b room front back cut e ne =
          replies.chunked (part ++ front) back
            (split ∙ ap (λ bs. part ++ bs) cut ∙ sym (append_assoc part front back))
            (ground (
              arith,
              e,
              room.free,
              room.valid.chunked,
              room.same_cursor,
              length-append part front,
              cursor_lem s.buffer r.valid r.bytes,
            ))
            ne
