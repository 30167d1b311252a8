-- ===== src/Pop2/Parser/Answers/Reads.antt =====
-- The parser against the answers that a server may give, alone and behind the stream.
use getemail.Base.{
  arith, max, ℕ, ◌≡◌, ◌≢◌, ◌≤◌, ◌<◌, Bool, true, false, [], ◌∷◌, ◌++◌, Bytes, Option, length,
}
use getemail.Pop2.Command.{Command}
use getemail.Pop2.Env.{Env, LawfulBuffers, done}
use getemail.Pop2.Buffer.{max_size}
use getemail.Pop2.Stream.{PopStream}
use getemail.Pop2.Stream.Read.{read_response}
use getemail.Pop2.Stream.Progress.{Delivers, IsIdle, IsIdle-≤}
use getemail.Pop2.Stream.Responds.{replied, read_response-Delivers}
use getemail.Pop2.Nom.{Nom}
use getemail.Pop2.Nom.Laws.{LawfulPrimitives, LawfulCombinators, is_space}
use getemail.Pop2.Parser.{parse, with_parser}
use getemail.Pop2.Parser.Streams.{Streams}
use getemail.Pop2.Parser.Primitives.{All, StopsAt}
use getemail.Pop2.Parser.Whole.{Streams-parse, parser}
use getemail.Pop2.Parser.Replies.{IsChunked, Replies-Streams, lawful}
use getemail.Pop2.Parser.Asked.{AsksWithin-≤}
use getemail.Pop2.Parser.Answers.Asks.{asked, MayEnd, asked_low, AsksWithin-written}
use getemail.Pop2.Parser.Lines.{status_tag}
use getemail.Pop2.Parser.Answers.{Answer, is_success, body, written, value, Fits}
use getemail.Pop2.Parser.Answers.Selects.{Streams-Answer, body_stops}

stops_before : (p : ℕ → Bool) (text tail : Bytes) → StopsAt p text → StopsAt p (text ++ tail)
stops_before p [] tail h = absurd h
stops_before p (c ∷ text) tail h = h

module _ (nom : Nom) (prims : LawfulPrimitives nom) (combs : LawfulCombinators nom) where
  Streams-written :
      (decode : Bytes → Option Bytes) (c : Command) (a : Answer) (spaces tail : Bytes)
      → All is_space spaces
      → Fits c a
      → Streams (parser nom prims combs decode c) (written spaces a) tail (value a)
  Streams-written decode c a spaces tail h f =
      Streams-parse nom prims combs decode c (is_success a) spaces (body a) tail (value a) h
        (stops_before is_space (body a) tail (body_stops c a f))
        (Streams-Answer nom prims combs c a tail f)

  pub parse-written :
      (decode : Bytes → Option Bytes) (c : Command) (a : Answer) (spaces tail : Bytes)
      → All is_space spaces
      → Fits c a
      → parse nom decode (written spaces a ++ tail) c ≡ done tail (value a)
  parse-written decode c a spaces tail h f = (Streams-written decode c a spaces tail h f).whole

  pub read_response-written :
      (env : Env)
      → LawfulBuffers env
      → (c : Command) (a : Answer) (spaces : Bytes) (bound : ℕ)
        (Then : (with_parser env nom).Socket → Type 0) (n fuel : ℕ)
        (s : PopStream (with_parser env nom))
      → All is_space spaces
      → Fits c a
      → length (written spaces a) ≤ max_size
      → bound ≤ length (written spaces a)
      → IsIdle (with_parser env nom) bound s
      → IsChunked (MayEnd a) (written spaces a)
      → Delivers (with_parser env nom) (MayEnd a) Then n s.stream (written spaces a)
      → n < fuel
      → (s' : PopStream (with_parser env nom)) × (read_response (with_parser env nom) fuel c s
          ≡ (replied (value a), s'))
        × IsIdle (with_parser env nom) (max bound (asked spaces a)) s'
        × Then s'.stream
  read_response-written env laws c a spaces bound Then n fuel s h f small high idle chunked d
        enough =
      let p = parser nom prims combs env.base64_decode c in
      let needs = max bound (asked spaces a) in
      let streams : Streams p (written spaces a) [] (value a) =
        Streams-written env.base64_decode c a spaces [] h f in
      let asks = AsksWithin-written nom prims combs env.base64_decode c a spaces h f streams in
      read_response-Delivers (with_parser env nom) (lawful env laws nom prims combs) (MayEnd a) c
        (written spaces a) (value a) needs
        (Replies-Streams env laws nom prims combs (MayEnd a) c (written spaces a) (value a) needs
          small (omega (arith, asked_low a spaces)) streams
          (AsksWithin-≤ (MayEnd a) p (written spaces a) (asked spaces a) needs (omega arith) asks)
          chunked)
        Then n fuel s (some_bytes (is_success a))
        (IsIdle-≤ (with_parser env nom) bound needs s (omega arith) idle) d enough
    where
      some_bytes : (success : Bool) → (status_tag success ++ spaces) ++ body a ≢ []
      some_bytes true e = cc
      some_bytes false e = cc
