-- ===== src/Pop2/Stream/Refused.antt =====
-- What a response that the parser refuses leaves behind (`decode` of async-pop2/src/stream.rs).
use getemail.Base.{ℕ, suc, ◌≤◌, ◌<◌, ◌≡◌, ◌⊎◌, ap, ◌∙◌, arith, List, ◌∷◌}
use getemail.Base.Exec.{err, panic}
use getemail.Pop2.Command.{Command}
use getemail.Pop2.Error.{invalid_response}
use getemail.Pop2.Queue
use getemail.Pop2.Buffer
use getemail.Pop2.Buffer.{chunk_size}
use getemail.Pop2.Buffer.Bounds.{IsValid, unread}
use getemail.Pop2.Env.{Env, LawfulBuffers, error, failure}
use getemail.Pop2.Stream.{PopStream, decode}
use getemail.Pop2.Stream.Read.{poll_next, next, read_response}

module _ (env : Env) (laws : LawfulBuffers env) where
  open laws use {length-zeroed}

  -- The buffer is a fresh one, with the cursor where it was.
  abbrev pub spoiled : PopStream env → PopStream env
  spoiled s = record s { buffer = record s.buffer { inner = env.zeroed chunk_size } }

  -- A refused response is reported, but its command stays at the head of the queue, and a fresh buffer
  -- stands for the bytes that had come.
  decode_refused :
      (s : PopStream env) (command : Command) (later : List Command)
      → IsValid s.buffer
      → s.decode_needs ≤ s.buffer.cursor
      → s.queue.list ≡ command ∷ later
      → (env.from_bytes (unread s.buffer) command ≡ error)
        ⊎ (env.from_bytes (unread s.buffer) command ≡ failure)
      → decode env s ≡ (err invalid_response, spoiled s)
  unfolding decode Buffer.replace Queue.current
  decode_refused s command later valid ready asked refused = ground (arith, valid)

  spoiled_panics :
      (fuel : ℕ) (next_command command : Command) (later : List Command) (s : PopStream env)
      → s.decode_needs ≤ s.buffer.cursor
      → chunk_size < s.buffer.cursor
      → s.queue.list ≡ command ∷ later
      → (read_response env (suc fuel) next_command (spoiled s)).0 ≡ panic
  unfolding read_response next poll_next decode Buffer.replace Queue.current Queue.add
  spoiled_panics fuel next_command command later s ready long asked =
      ground (arith, length-zeroed chunk_size)

  -- If more than a chunk had come with the refused response, the next command panics, whatever it is
  -- and whatever the server sends.
  pub refused_panics :
      (fuel : ℕ) (next_command command : Command) (later : List Command) (s : PopStream env)
      → IsValid s.buffer
      → s.decode_needs ≤ s.buffer.cursor
      → s.queue.list ≡ command ∷ later
      → (env.from_bytes (unread s.buffer) command ≡ error)
        ⊎ (env.from_bytes (unread s.buffer) command ≡ failure)
      → chunk_size < s.buffer.cursor
      → (read_response env (suc fuel) next_command (decode env s).1).0 ≡ panic
  refused_panics fuel next_command command later s valid ready asked refused long =
      ap (λ r. (read_response env (suc fuel) next_command r.1).0)
        (decode_refused s command later valid ready asked refused)
      ∙ spoiled_panics fuel next_command command later s ready long asked
