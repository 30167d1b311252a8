-- ===== src/Pop2/Stream/Responds.antt =====
-- The loops of `poll_next` and `.await` end with the response, and the fuel they need.
use getemail.Base.{
  ℕ, zero, suc, ◌≤◌, ◌<◌, ◌≡◌, ◌≢◌, ◌⊎◌, inl, inr, refl, sym, ap, ◌∙◌, arith, [], ◌∷◌, ◌++◌, Bytes,
  append_assoc, append-nil,
}
use getemail.Base.Exec.{Outcome, ok, err, pure, ◌>>=◌}
use getemail.Pop2.Command.{Command}
use getemail.Pop2.Response.{Response}
use getemail.Pop2.Error.{ErrorKind, server_error}
use getemail.Pop2.Queue
use getemail.Pop2.Env.{Env, LawfulBuffers}
use getemail.Pop2.Stream.{PopStream, decode}
use getemail.Pop2.Stream.Read.{
  Poll, ready, pending, fill, fill_loop, poll_next, next, check_response, read_response,
}
use getemail.Pop2.Stream.Progress.{
  Delivers, left-Delivers, Replies, IsIdle, Reading, Waiting, decode_partial, decode_complete,
  fill_piece,
}

-- What the caller gets: a negative response of the server is an error.
abbrev pub replied : Response → Outcome ErrorKind Response
replied (Response.err text) = err (server_error text)
replied response = ok response

module _ (env : Env) (laws : LawfulBuffers env) (May : Bytes → Type 0) (command : Command)
    (full : Bytes) (response : Response) (bound : ℕ)
    (replies : Replies env May command full response bound) (Then : env.Socket → Type 0) where
  -- The outcome of a loop that was given enough fuel, of which `n` polls are left.
  abbrev Ends : ℕ → Outcome ErrorKind (Poll Response) × PopStream env → Type 0
  Ends n r =
      ((m : ℕ) × (s : PopStream env) × (m < n)
        × (r ≡ (ok pending, s))
        × Waiting env May command full bound Then m s)
      ⊎ ((s : PopStream env) × (r ≡ (ok (ready response), s)) × IsIdle env bound s × Then s.stream)

  Ends-mono :
      {n : ℕ} (r : Outcome ErrorKind (Poll Response) × PopStream env) → Ends n r → Ends (suc n) r
  Ends-mono r (inl (m, s, h, e, w)) = inl (m, s, omega arith, e, w)
  Ends-mono r (inr x) = inr x

  -- A piece has come: it was the last one, or the loop goes round again.
  after_piece :
      (n fuel : ℕ) (s s' : PopStream env) (part rest chunk left : Bytes)
      → full ≡ part ++ rest
      → rest ≡ chunk ++ left
      → (left ≢ [] → May left)
      → Reading env command bound (part ++ chunk) s'
      → Delivers env May Then n s'.stream left
      → fill env s ≡ (decode env >>= λ r. pure (ready r)) s'
      → ((t : PopStream env)
          → Waiting env May command full bound Then n t
          → Ends n (fill_loop env fuel t))
      → Ends (suc n) (fill_loop env (suc fuel) s)
  unfolding fill_loop
  after_piece n fuel s s' part rest chunk [] split cut may r d e again =
      let whole : part ++ chunk ≡ full =
        sym (split ∙ ap (λ bs. part ++ bs) (cut ∙ append-nil chunk)) in
      let (t, done, idle, same) =
        decode_complete env laws May command full response bound replies s' (rw whole at r) in
      inr (t, rw (e, done), idle, rw same (left-Delivers env May Then n s'.stream d))
  after_piece n fuel s s' part rest chunk (b ∷ left) split cut may r d e again =
      let whole : full ≡ (part ++ chunk) ++ (b ∷ left) =
        split ∙ ap (λ bs. part ++ bs) cut ∙ sym (append_assoc part chunk (b ∷ left)) in
      let (t, unfinished, r', same) =
        decode_partial env laws May command full response bound replies s' (part ++ chunk)
          (b ∷ left) r whole (λ h. cc) (may (λ h. cc)) in
      rw (e, unfinished)
        (Ends-mono _ (
          again t (record {
            part = part ++ chunk;
            rest = b ∷ left;
            split = whole;
            more = λ h. cc;
            may = may (λ h. cc);
            reading = r';
            delivers = rw same d;
          })))

  fill_loop-Ends :
      (n fuel : ℕ) (s : PopStream env)
      → Waiting env May command full bound Then n s
      → n ≤ fuel
      → Ends n (fill_loop env fuel s)
  unfolding fill_loop
  fill_loop-Ends zero fuel s w h = absurd (w.more w.delivers.0)
  fill_loop-Ends (suc n) zero s w h = absurd (omega arith)
  fill_loop-Ends (suc n) (suc fuel) s w h =
      elim (fill_piece env laws May command full response bound replies Then n s w.part w.rest
        w.reading w.split w.more w.delivers) [
          | inl (s', e, r, d) ↦ inl (
            n,
            s',
            omega arith,
            rw e,
            record {
              part = w.part;
              rest = w.rest;
              split = w.split;
              more = w.more;
              may = w.may;
              reading = r;
              delivers = d;
            },
          )
          | inr (chunk, left, s', cut, may, r, d, e) ↦
              after_piece n fuel s s' w.part w.rest chunk left w.split cut may r d e
                (λ t w'. fill_loop-Ends n fuel t w' (omega arith))
        ]

  -- `poll_next` looks at what it has before it reads.
  poll_next-Ends :
      (n fuel : ℕ) (s : PopStream env)
      → Waiting env May command full bound Then n s
      → n ≤ fuel
      → Ends n (poll_next env fuel s)
  unfolding poll_next
  poll_next-Ends n fuel s w h =
      let (t, unfinished, r, same) =
        decode_partial env laws May command full response bound replies s w.part w.rest w.reading
          w.split w.more w.may in
      rw unfinished (
        fill_loop-Ends n fuel t
          (record {
            part = w.part;
            rest = w.rest;
            split = w.split;
            more = w.more;
            may = w.may;
            reading = r;
            delivers = rw same w.delivers;
          })
          h)

  next_responds :
      (polls n fuel : ℕ) (s : PopStream env)
      → Waiting env May command full bound Then n s
      → n < polls
      → n ≤ fuel
      → (s' : PopStream env) × (next env polls fuel s ≡ (ok response, s'))
        × IsIdle env bound s'
        × Then s'.stream
  unfolding next
  next_responds zero n fuel s w h k = absurd (omega arith)
  next_responds (suc polls) n fuel s w h k = elim (poll_next-Ends n fuel s w k) [
    | inl (m, s', less, e, w') ↦ rw e (next_responds polls m fuel s' w' (omega arith) (omega arith))
    | inr (s', e, idle, then) ↦ (s', rw e, idle, then)
  ]

  check_response_lem : (r : Response) (s : PopStream env) → check_response env r s ≡ (replied r, s)
  unfolding check_response
  check_response_lem (Response.err text) s = refl
  check_response_lem _ s = refl

  -- However the network cuts the response into pieces that end where `May` says, which may be anywhere
  -- (`Anywhere`) if the parser bears it, and whenever it is not ready, an idle stream returns exactly
  -- this response; it is idle again, and its socket is left as `Then` says of the one behind the last
  -- byte. The fuel has to exceed the number of polls. `bound` is a number, at most the length of the
  -- response, which `decode_needs` does not exceed before, nor behind it, and behind which the parser
  -- asks for no byte.
  pub read_response-Delivers :
      (n fuel : ℕ) (s : PopStream env)
      → full ≢ []
      → IsIdle env bound s
      → Delivers env May Then n s.stream full
      → n < fuel
      → (s' : PopStream env) × (read_response env fuel command s ≡ (replied response, s'))
        × IsIdle env bound s'
        × Then s'.stream
  unfolding read_response Queue.add
  read_response-Delivers n fuel s some_bytes idle d h =
      let asking = record s { queue = record { list = s.queue.list ++ command ∷ [] } } in
      let (s', e, idle', then) =
        next_responds fuel n fuel asking
          (record {
            part = [];
            rest = full;
            split = refl;
            more = some_bytes;
            may = replies.chunked [] full refl refl some_bytes;
            reading = record {
              valid = idle.valid;
              bytes = idle.no_bytes;
              asked = ap (λ l. l ++ command ∷ []) idle.no_command;
              needs = idle.needs;
            };
            delivers = d;
          })
          h (omega arith) in
      (s', rw e (check_response_lem response s'), idle', then)
