-- ===== src/Tests/Stream.antt =====
-- The stream in the scripted environment.
use getemail.Base.{
  ℕ, ◌≡◌, ◌≢◌, ◌↔◌, ◌⊎◌, ◌<◌, ◌≤◌, inl, inr, Bool-cases, leb, length-drop, length-take, take, drop,
  ◌-◌, refl, arith, List, [], ◌∷◌, ◌++◌, Bytes, codes, length,
}
use getemail.Base.Exec.{ok, err, panic, stuck}
use getemail.Pop2.Command.{Command}
use getemail.Pop2.Error.{response_too_large}
use getemail.Pop2.Queue
use getemail.Pop2.Buffer
use getemail.Pop2.Buffer.{Buffer, max_size, chunk_size, ensure_capacity, reset_with}
use getemail.Pop2.Buffer.Bounds.{
  new-IsValid, IsValid, IsTooLarge, HasRoom, unread, ensure_capacity-HasRoom,
}
use getemail.Pop2.Buffer.Contents.{received, unread-received, unread-reset_with, reset_with-panic}
use getemail.Pop2.Env.{Env, ReadEvent, not_ready}
use getemail.Pop2.Env
use getemail.Pop2.Stream
use getemail.Pop2.Stream.{PopStream}
use getemail.Pop2.Stream.Read.{read_response, poll_next}
use getemail.Pop2.Stream.Progress.{Anywhere, Delivers, Anything, IsIdle}
use getemail.Pop2.Stream.Faults.{read_response_starves, read_response_end_of_stream}
use getemail.Pop2.Stream.Refused.{refused_panics}
use getemail.Pop2.Stream.Responds.{read_response-Delivers}
use getemail.Pop2.Stream.Ends.{Open, poll_next-Open}
use getemail.Tests.World.{
  Script, world, world-LawfulBuffers, response_of, line-Replies, script-Delivers, AtMost,
  script_quiet,
}

-- The greeting "+OK" and a line feed in two pieces, with a pause between them.
abbrev greeting : Bytes
greeting = codes "+OK\n"

abbrev pieces : Script
pieces = record {
  offers = Env.received (codes "+O") ∷ not_ready ∷ Env.received (codes "K\n") ∷ [];
  sent = [];
}

abbrev fresh : PopStream world
fresh = Stream.new world pieces

new-Delivers :
    (n : ℕ) (s : Script) (bs : Bytes)
    → Delivers world Anywhere (Anything world) n s bs
    → Delivers world Anywhere (Anything world) n (Stream.new world s).stream bs
unfolding Stream.new
new-Delivers n s bs d = d

fresh-IsIdle : IsIdle world 4 fresh
unfolding Stream.new Queue.new
fresh-IsIdle = record {
  valid = new-IsValid world world-LawfulBuffers;
  no_bytes = unfold Buffer.new in refl;
  no_command = refl;
  needs = omega arith;
}

read_response-Delivers_example :
    (s : PopStream world) × (read_response world 20 Command.greet fresh
      ≡ (ok (response_of (codes "+OK")), s))
    × IsIdle world 4 s
    × Anything world s.stream
read_response-Delivers_example =
    read_response-Delivers world world-LawfulBuffers Anywhere Command.greet greeting
      (response_of (codes "+OK")) 4
      (line-Replies Command.greet b'+' (codes "OK") (omega arith) (omega arith) (omega arith))
      (Anything world) 19 20 fresh (λ e. cc) fresh-IsIdle
      (new-Delivers 19 pieces greeting (
        script-Delivers Anywhere (Anything world) 19 pieces.offers [] [] (omega arith) (omega arith)
          tt))
      (omega arith)

-- A reply over one chunk: the buffer grows, within its limit.
abbrev full_chunk : Buffer
full_chunk = record { inner = world.zeroed chunk_size; cursor = chunk_size }

full_chunk-IsValid : IsValid full_chunk
full_chunk-IsValid = omega arith

ensure_capacity-HasRoom_example :
    (IsTooLarge 5000 full_chunk
      × (ensure_capacity world 5000 full_chunk ≡ (err response_too_large, full_chunk)))
    ⊎ ((b : Buffer) × (ensure_capacity world 5000 full_chunk ≡ (ok tt, b))
        × (¬ IsTooLarge 5000 full_chunk)
        × HasRoom 5000 full_chunk b)
ensure_capacity-HasRoom_example =
    ensure_capacity-HasRoom world world-LawfulBuffers 5000 full_chunk full_chunk-IsValid

unread-received_example :
    IsValid (received (record { inner = world.zeroed chunk_size; cursor = 3 }) (codes "OK\n"))
    × ((received (record { inner = world.zeroed chunk_size; cursor = 3 }) (codes "OK\n")).cursor
        ≡ 6)
    × (unread (received (record { inner = world.zeroed chunk_size; cursor = 3 }) (codes "OK\n"))
        ≡ 0 ∷ 0 ∷ 0 ∷ codes "OK\n")
unread-received_example =
    unread-received (record { inner = world.zeroed chunk_size; cursor = 3 }) (codes "OK\n")
      (omega arith) (omega arith)

unread-reset_with_example :
    (b : Buffer) × (reset_with world (codes "+OK") full_chunk ≡ (ok tt, b))
    × IsValid b
    × (b.cursor ≡ 3)
    × (unread b ≡ codes "+OK")
unread-reset_with_example =
    unread-reset_with world world-LawfulBuffers (codes "+OK") full_chunk (omega arith)

reset_with-panic_example :
    ((reset_with world (world.zeroed 2049) full_chunk).0 ≡ panic)
    ↔ (chunk_size < length (world.zeroed 2049))
reset_with-panic_example = reset_with-panic world world-LawfulBuffers (world.zeroed 2049) full_chunk

-- A response of five bytes is there, and nothing follows; the last one has left `decode_needs` at 12.
abbrev reading : Bytes → ℕ → List Command → Script → PopStream world
reading bs needs commands script = record {
  last_activity = 0;
  buffer = record { inner = bs ++ world.zeroed (chunk_size - length bs); cursor = length bs };
  decode_needs = needs;
  queue = record { list = commands };
  stream = script;
}

abbrev nothing : Script
nothing = record { offers = []; sent = [] }

abbrev five_bytes : PopStream world
five_bytes = reading (codes "+OK \n") 12 [] nothing

read_response_starves_example : (read_response world 100 Command.noop five_bytes).0 ≡ stuck
read_response_starves_example =
    read_response_starves world world-LawfulBuffers AtMost script_quiet 100 Command.noop five_bytes
      0 (omega arith) (tt, omega arith) (omega arith) (omega arith)

read_response_end_of_stream_example :
    (read_response world 100 Command.noop (reading (codes "+O") 0 [] nothing)).0 ≡ stuck
read_response_end_of_stream_example =
    read_response_end_of_stream world world-LawfulBuffers AtMost script_quiet Command.noop
      (codes "+O") (inl refl) 100 (reading (codes "+O") 0 [] nothing) (omega arith) refl refl
      (omega arith) (omega arith) (tt, omega arith)

abbrev refused : PopStream world
refused = reading (codes "!") 0 (Command.capa ∷ []) nothing

-- A refused response of more than a chunk.
abbrev long_refused : PopStream world
long_refused = record refused {
  buffer = record { inner = b'!' ∷ world.zeroed 4095; cursor = 3000 };
}

refused_panics_example :
    (read_response world 10 Command.stat (Stream.decode world long_refused).1).0 ≡ panic
refused_panics_example =
    refused_panics world world-LawfulBuffers 9 Command.stat Command.capa [] long_refused
      (omega arith) (omega arith) refl (inl refl) (omega arith)

-- No piece that a script offers is empty.
abbrev HasBytes : List ReadEvent → Type 0
HasBytes [] = Unit {0}
HasBytes (Env.received bs ∷ es) = (0 < length bs) × HasBytes es
HasBytes (_ ∷ es) = HasBytes es

open_step :
    (es : List ReadEvent) (sent : Bytes) (free : ℕ)
    → 0 < free
    → HasBytes es
    → ((s : Script) × (world.poll_read (record { offers = es; sent = sent }) free ≡ (not_ready, s))
        × HasBytes s.offers)
      ⊎ (((e : ℕ) × (s : Script) × (world.poll_read (record { offers = es; sent = sent }) free
              ≡ (Env.failed e, s)))
          ⊎ ((chunk : Bytes) × (s : Script) × (world.poll_read
                  (record { offers = es; sent = sent })
                  free
                ≡ (Env.received chunk, s))
              × (0 < length chunk)
              × (length chunk ≤ free)
              × HasBytes s.offers))
open_step [] sent free pos h = inl (_, refl, tt)
open_step (not_ready ∷ es) sent free pos h = inl (_, refl, h)
open_step (Env.failed e ∷ es) sent free pos h = inr (inl (_, _, refl))
open_step (Env.received bs ∷ es) sent free pos h = elim (Bool-cases (leb (length bs) free)) [
  | inl all ↦ inr (inr (bs, record { offers = es; sent = sent }, rw all, h.0, ground arith, h.1))
  | inr part ↦ inr (
      inr (
        take free bs,
        record { offers = Env.received (drop free bs) ∷ es; sent = sent },
        rw part,
        ground (arith, length-take free bs),
        ground (arith, length-take free bs),
        (ground (arith, length-drop free bs), h.1),
      ))
]

script-Open : Open world (λ s. HasBytes s.offers)
script-Open = record { step = λ s free pos h. open_step s.offers s.sent free pos h }

poll_next-Open_example :
    (poll_next world 20971521 (reading (codes "+O") 0 (Command.greet ∷ []) pieces)).0 ≢ stuck
poll_next-Open_example =
    poll_next-Open world world-LawfulBuffers (λ s. HasBytes s.offers) script-Open 20971521
      (reading (codes "+O") 0 (Command.greet ∷ []) pieces) (omega arith)
      (omega arith, (omega arith, tt)) (omega arith)
