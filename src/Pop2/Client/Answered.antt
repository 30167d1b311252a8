-- ===== src/Pop2/Client/Answered.antt =====
-- A request of the client and the answer of the server, from the bytes that are sent to the response.
use getemail.Base.{max, ℕ, ◌≡◌, ◌≤◌, ◌<◌, refl, inl, inr, ◌⊎◌, List, [], ◌∷◌, Bytes, some, length}
use getemail.Base.Exec.{ok}
use getemail.Pop2.Command
use getemail.Pop2.Request
use getemail.Pop2.Request.{Request}
use getemail.Pop2.Env
use getemail.Pop2.Env.{Env, LawfulBuffers}
use getemail.Pop2.Buffer.{max_size}
use getemail.Pop2.Stream.{PopStream, end_of_line, encode, send_bytes, write}
use getemail.Pop2.Stream.Progress.{Anywhere, Delivers, IsIdle}
use getemail.Pop2.Stream.Responds.{replied}
use getemail.Pop2.Client.{
  ClientState, authentication, Client, transaction, state_eq, inner_mut, run_on, send_request,
  check_deleted, is_deleted, sort, binary_search,
}
use getemail.Pop2.Client.Commands.{numbered, expect_bytes, retr}
use getemail.Pop2.Nom.{Nom}
use getemail.Pop2.Nom.Laws.{LawfulPrimitives, LawfulCombinators, is_space}
use getemail.Pop2.Parser.{with_parser}
use getemail.Pop2.Parser.Primitives.{All}
use getemail.Pop2.Parser.Messages.{AllLines, content_of}
use getemail.Pop2.Parser.Answers.{Answer, mail, written, value, Fits, IsMessage}
use getemail.Pop2.Parser.Answers.Asks.{asked, MayEnd}
use getemail.Pop2.Parser.Replies.{IsChunked}
use getemail.Pop2.Parser.Answers.Reads.{read_response-written}

-- The socket takes a line, and is left as `after`.
pub record Sends (env : Env) (bs : Bytes) (before after : env.Socket) : Type 0 where
  pub behind_text : env.Socket
  pub behind_line : env.Socket
  pub text : env.write_all before bs ≡ (Env.written, behind_text)
  pub line : env.write_all behind_text end_of_line ≡ (Env.written, behind_line)
  pub flushed : env.flush behind_line ≡ (Env.written, after)

encode-Sends :
    (env : Env) (request : Request) (s : PopStream env) (after : env.Socket)
    → Sends env (Request.display env.base64_encode request) s.stream after
    → encode env request s ≡ (ok tt, record s { last_activity = env.now s.stream; stream = after })
unfolding encode send_bytes write
encode-Sends env request s after h = rw (h.text, h.line, h.flushed) refl

-- The states in which requests are sent.
abbrev pub IsOpen : ClientState → Type 0
IsOpen state = (state ≡ transaction) ⊎ (state ≡ authentication)

module _ (nom : Nom) (prims : LawfulPrimitives nom) (combs : LawfulCombinators nom) (env : Env)
    (laws : LawfulBuffers env) where
  pub send_request-written :
      (request : Request) (a : Answer) (spaces : Bytes) (bound : ℕ)
      (Then : (with_parser env nom).Socket → Type 0) (n fuel : ℕ) (c : Client (with_parser env nom))
      (s : PopStream (with_parser env nom)) (after : (with_parser env nom).Socket)
      → c.inner ≡ some s
      → IsOpen c.state
      → All is_space spaces
      → Fits request.command a
      → length (written spaces a) ≤ max_size
      → bound ≤ length (written spaces a)
      → IsIdle (with_parser env nom) bound s
      → Sends
          (with_parser env nom)
          (Request.display (with_parser env nom).base64_encode request)
          s.stream
          after
      → IsChunked (MayEnd a) (written spaces a)
      → Delivers (with_parser env nom) (MayEnd a) Then n after (written spaces a)
      → n < fuel
      → (s' : PopStream (with_parser env nom)) × (send_request (with_parser env nom) fuel request c
          ≡ (replied (value a), record c { inner = some s' }))
        × IsIdle (with_parser env nom) (max bound (asked spaces a)) s'
        × Then s'.stream
  unfolding send_request inner_mut run_on state_eq
  send_request-written request a spaces bound Then n fuel c s after e t h f small high idle sends
        chunked d enough =
      let now = record s { last_activity = (with_parser env nom).now s.stream; stream = after } in
      let (s', reads, idle', then) =
        read_response-written nom prims combs env laws request.command a spaces bound Then n fuel
          now h f small high
          (record {
            valid = idle.valid;
            no_bytes = idle.no_bytes;
            no_command = idle.no_command;
            needs = idle.needs;
          })
          chunked d enough in
      let encoded = encode-Sends (with_parser env nom) request s after sends in
      (
        s',
        elim t [
          | inl ready ↦ rw (e, ready, encoded, reads) refl
          | inr early ↦ rw (e, early, encoded, reads) refl
        ],
        idle',
        then,
      )

  -- `retr` of a client in the state Transaction, whose server takes the request and answers with a
  -- message in any pieces, returns the lines of the message as they were sent; the stream is idle
  -- again, and its socket is left as `Then` says of the one behind the last byte. No message is marked
  -- as deleted. The stream was idle before, with `decode_needs` at most `bound`, which is not more
  -- than the length of the answer; behind it `decode_needs` is at most `bound` or one more than the
  -- length of the status with its spaces. The answer fits into the buffer; the fuel exceeds the number
  -- of polls. `nom` is lawful.
  pub retr-mail :
      (number : ℕ) (title line : Bytes) (lines : List Bytes) (spaces : Bytes) (bound : ℕ)
      (Then : (with_parser env nom).Socket → Type 0) (n fuel : ℕ) (c : Client (with_parser env nom))
      (s : PopStream (with_parser env nom)) (after : (with_parser env nom).Socket)
      → c.inner ≡ some s
      → c.state ≡ transaction
      → c.marked_as_del ≡ []
      → All is_space spaces
      → IsMessage title
      → AllLines (line ∷ lines)
      → length (written spaces (mail title line lines)) ≤ max_size
      → bound ≤ length (written spaces (mail title line lines))
      → IsIdle (with_parser env nom) bound s
      → Sends
          (with_parser env nom)
          (Request.display
            (with_parser env nom).base64_encode
            (numbered Command.retr (some number)))
          s.stream
          after
      → Delivers
          (with_parser env nom)
          Anywhere
          Then
          n
          after
          (written spaces (mail title line lines))
      → n < fuel
      → (s' : PopStream (with_parser env nom)) × (retr (with_parser env nom) fuel number c
          ≡ (ok (content_of line lines), record c { inner = some s'; marked_as_del = [] }))
        × IsIdle (with_parser env nom) (max bound (asked spaces (mail title line lines))) s'
        × Then s'.stream
  unfolding retr check_deleted is_deleted sort binary_search expect_bytes numbered
      Request.from_command Request.add_arg
  retr-mail number title line lines spaces bound Then n fuel c s after e t none_marked h m ls small
        high idle sends d enough =
      let (s', sent, idle', then) =
        send_request-written (numbered Command.retr (some number)) (mail title line lines) spaces
          bound Then n fuel (record c { marked_as_del = [] }) s after e (inl t) h (inl refl, m, ls)
          small high idle sends (λ part rest cut at more. tt) d enough in
      (s', rw (none_marked, sent) refl, idle', then)
