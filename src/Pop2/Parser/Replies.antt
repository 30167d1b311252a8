-- ===== src/Pop2/Parser/Replies.antt =====
-- The stream with the parser in it: a server's answer, cut into pieces in any way, comes to the caller as the
-- response that it stands for.
use getemail.Base.{
  ℕ, ◌≤◌, ◌≡◌, ◌≢◌, ◌++◌, ◌%◌, sym, ap, subst, ◌∙◌, arith, [], ◌∷◌, Bytes, append-nil, length,
  length-append,
}
use getemail.Pop2.Command.{Command}
use getemail.Pop2.Response.{Response}
use getemail.Pop2.Env.{Env, LawfulBuffers}
use getemail.Pop2.Buffer.{max_size, chunk_size}
use getemail.Pop2.Stream.Progress.{Replies}
use getemail.Pop2.Nom.{Nom}
use getemail.Pop2.Nom.Laws.{LawfulPrimitives, LawfulCombinators}
use getemail.Pop2.Parser.{parse, with_parser}
use getemail.Pop2.Parser.Streams.{Streams, length_pos}
use getemail.Pop2.Parser.Asked.{AsksWithin}
use getemail.Pop2.Parser.Whole.{parser}

-- The chunks of the buffer, if the response begins at one, end where `May` says.
abbrev pub IsChunked : (Bytes → Type 0) → Bytes → Type 0
IsChunked May full =
    (part rest : Bytes) → full ≡ part ++ rest → length part % chunk_size ≡ 0 → rest ≢ [] → May rest

-- A response that fits into one chunk.
pub short-IsChunked :
    (May : Bytes → Type 0) (full : Bytes) → length full ≤ chunk_size → May full → IsChunked May full
short-IsChunked May full short may [] rest e at more = subst May e may
short-IsChunked May full short may (c ∷ part) rest e at more =
    absurd (ground (arith, ap length e, length-append (c ∷ part) rest, length_pos rest more))

module _ (env : Env) (laws : LawfulBuffers env) (nom : Nom) (prims : LawfulPrimitives nom)
    (combs : LawfulCombinators nom) where
  -- A parser that streams the answer, and asks for no byte behind the first `bound` ones, serves the stream.
  pub Replies-Streams :
      (May : Bytes → Type 0) (c : Command) (full : Bytes) (r : Response) (bound : ℕ)
      → length full ≤ max_size
      → bound ≤ length full
      → Streams (parser nom prims combs env.base64_decode c) full [] r
      → AsksWithin May (parser nom prims combs env.base64_decode c) full bound
      → IsChunked May full
      → Replies (with_parser env nom) May c full r bound
  unfolding with_parser
  Replies-Streams May c full r bound small within s asks chunked = record {
    complete = ap (λ input. parse nom env.base64_decode input c) (sym (append-nil full)) ∙ s.whole;
    partial = λ part rest e ne may. asks part rest e ne may;
    within = within;
    fits = small;
    chunked = chunked;
  }

  pub lawful : LawfulBuffers (with_parser env nom)
  unfolding with_parser
  lawful = record {
    length-zeroed = laws.length-zeroed;
    length-resize = laws.length-resize;
    take-resize = laws.take-resize;
  }
