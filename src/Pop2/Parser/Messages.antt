-- ===== src/Pop2/Parser/Messages.antt =====
-- The answer to RETR and TOP: the lines of a message, each with a dot more in front if it begins with one, and
-- a line that is a dot.
use getemail.Base.{
  ◌≡◌, ◌≢◌, refl, sym, ap, ◌∙◌, ◌⊎◌, inl, inr, true, false, List, [], ◌∷◌, ◌++◌, Bytes, some, arith,
  append-nil, append_assoc, IsLine, starts_with, Bool-cases, ◌==◌, if◌then◌else◌,
}
use getemail.Pop2.Response.{Response}
use getemail.Pop2.Env.{done, incomplete, unknown}
use getemail.Pop2.Nom.{Nom, Parser, pure, ◌>>=◌, ◌>>◌}
use getemail.Pop2.Nom.Laws.{LawfulPrimitives, LawfulCombinators, taken_until}
use getemail.Pop2.Parser.Core.{eol, end_of_multiline, message_parser}
use getemail.Pop2.Parser.Rfc1939.{rfc822_response}
use getemail.Pop2.Parser.Streams.{Untold, Cut-Untold, Untold-bind, Streams, Streams-bind}
use getemail.Pop2.Parser.Primitives.{head_eq, tail_eq}
use getemail.Pop2.Parser.Lines.{crlf, eol-crlf, Streams-message_parser, message_parser-Untold}

abbrev pub end_of_message : Bytes
end_of_message = 0x0d ∷ 0x0a ∷ b'.' ∷ 0x0d ∷ 0x0a ∷ []

-- The end of the message does not begin within this text, if the end and `tail` stand behind it.
abbrev pub Unended : Bytes → Bytes → Type 0
Unended tail [] = Unit {0}
Unended tail (c ∷ cs) =
    (starts_with end_of_message (c ∷ (cs ++ (end_of_message ++ tail))) ≡ false) × Unended tail cs

starts_with-append : (t a b : Bytes) → starts_with t a ≡ true → starts_with t (a ++ b) ≡ true
unfolding starts_with
starts_with-append [] a b h = refl
starts_with-append (t ∷ ts) [] b h = absurd (cc)
starts_with-append (t ∷ ts) (c ∷ a) b h = ground (arith, starts_with-append ts a b)

not_yet : (t a b : Bytes) → starts_with t (a ++ b) ≡ false → starts_with t a ≡ false
not_yet t a b h = elim (Bool-cases (starts_with t a)) [
  | inl e ↦ absurd (ground (arith, starts_with-append t a b e))
  | inr e ↦ e
]

taken_until-whole :
    (content tail : Bytes)
    → Unended tail content
    → taken_until end_of_message (content ++ (end_of_message ++ tail))
      ≡ done (end_of_message ++ tail) content
unfolding starts_with
taken_until-whole [] tail h = refl
taken_until-whole (c ∷ cs) tail h = rw (h.0, taken_until-whole cs tail h.1) refl

-- A part of the end is not the end.
end-cut :
    (tail part more : Bytes)
    → end_of_message ++ tail ≡ part ++ more
    → (taken_until end_of_message part ≡ incomplete unknown)
      ⊎ ((left : Bytes) × (tail ≡ left ++ more)
          × (taken_until end_of_message part ≡ done (end_of_message ++ left) []))
unfolding starts_with
end-cut tail [] more e = inl refl
end-cut tail (a ∷ []) more e = inl (ground arith)
end-cut tail (a ∷ b ∷ []) more e = inl (ground arith)
end-cut tail (a ∷ b ∷ c ∷ []) more e = inl (ground arith)
end-cut tail (a ∷ b ∷ c ∷ d ∷ []) more e = inl (ground arith)
end-cut tail (a ∷ b ∷ c ∷ d ∷ x ∷ left) more e = inr (
  left,
  tail_eq (tail_eq (tail_eq (tail_eq (tail_eq e)))),
  rw
      (
        sym (head_eq e),
        sym (head_eq (tail_eq e)),
        sym (head_eq (tail_eq (tail_eq e))),
        sym (head_eq (tail_eq (tail_eq (tail_eq e)))),
        sym (head_eq (tail_eq (tail_eq (tail_eq (tail_eq e))))),
      )
      refl,
)

taken_until-cut :
    (content tail part more : Bytes)
    → Unended tail content
    → content ++ (end_of_message ++ tail) ≡ part ++ more
    → (taken_until end_of_message part ≡ incomplete unknown)
      ⊎ ((left : Bytes) × (tail ≡ left ++ more)
          × (taken_until end_of_message part ≡ done (end_of_message ++ left) content))
taken_until-cut [] tail part more h e = end-cut tail part more e
taken_until-cut (c ∷ cs) tail [] more h e = inl (unfold starts_with in refl)
taken_until-cut (c ∷ cs) tail (x ∷ part) more h e =
    let here : starts_with end_of_message (x ∷ part) ≡ false =
      not_yet end_of_message (x ∷ part) more (ap (starts_with end_of_message) (sym e) ∙ h.0) in
    elim (taken_until-cut cs tail part more h.1 (tail_eq e)) [
      | inl w ↦ inl (rw (here, w) refl)
      | inr (left, split, d) ↦ inr (left, split, rw (here, d, head_eq e) refl)
    ]

-- The lines of a message as they are sent, without the last end of line.
abbrev pub stuffed : Bytes → Bytes
stuffed [] = []
stuffed (c ∷ cs) = if c == b'.' then c ∷ c ∷ cs else c ∷ cs

abbrev pub content_of : Bytes → List Bytes → Bytes
content_of line [] = stuffed line
content_of line (next ∷ lines) = stuffed line ++ (crlf ++ content_of next lines)

abbrev pub AllLines : List Bytes → Type 0
AllLines [] = Unit {0}
AllLines (line ∷ lines) = IsLine line × AllLines lines

stuffed-IsLine : (line : Bytes) → IsLine line → IsLine (stuffed line)
stuffed-IsLine [] h = h
stuffed-IsLine (c ∷ line) h = ground arith

Unended-line :
    (tail line rest : Bytes) → IsLine line → Unended tail rest → Unended tail (line ++ rest)
unfolding starts_with
Unended-line tail [] rest h u = u
Unended-line tail (c ∷ line) rest h u = (ground arith, Unended-line tail line rest h.2 u)

-- Behind the end of a line no lone dot stands.
Unended-crlf :
    (tail rest : Bytes)
    → starts_with (b'.' ∷ crlf) (rest ++ (end_of_message ++ tail)) ≡ false
    → Unended tail rest
    → Unended tail (0x0d ∷ 0x0a ∷ rest)
unfolding starts_with
Unended-crlf tail rest h u = (h, (refl, u))

stuffed_no_dot :
    (tail line rest : Bytes)
    → IsLine line
    → (rest ≡ []) ⊎ ((more : Bytes) × (rest ≡ 0x0d ∷ more))
    → starts_with (b'.' ∷ crlf) ((stuffed line ++ rest) ++ (end_of_message ++ tail)) ≡ false
unfolding starts_with
stuffed_no_dot tail [] rest h (inl e) = rw e refl
stuffed_no_dot tail [] rest h (inr (more, e)) = rw e refl
stuffed_no_dot tail (c ∷ line) rest h r = elim (Bool-cases (c == b'.')) [
  | inl e ↦ rw e (ground (arith, e))
  | inr e ↦ rw e (ground (arith, e))
]

content-no_dot :
    (tail line : Bytes) (lines : List Bytes)
    → AllLines (line ∷ lines)
    → starts_with (b'.' ∷ crlf) (content_of line lines ++ (end_of_message ++ tail)) ≡ false
content-no_dot tail line [] h =
    rw (append-nil (stuffed line)) at (stuffed_no_dot tail line [] h.0 (inl refl))
content-no_dot tail line (next ∷ lines) h =
    stuffed_no_dot tail line (crlf ++ content_of next lines) h.0 (inr (_, refl))

content-Unended :
    (tail line : Bytes) (lines : List Bytes)
    → AllLines (line ∷ lines)
    → Unended tail (content_of line lines)
content-Unended tail line [] h =
    rw (append-nil (stuffed line)) at
      (Unended-line tail (stuffed line) [] (stuffed-IsLine line h.0) tt)
content-Unended tail line (next ∷ lines) h =
    Unended-line tail (stuffed line) (crlf ++ content_of next lines) (stuffed-IsLine line h.0) (
      Unended-crlf tail (content_of next lines) (content-no_dot tail next lines h.1)
        (content-Unended tail next lines h.1))

module _ (nom : Nom) (prims : LawfulPrimitives nom) (combs : LawfulCombinators nom) where
  open prims use {tag-eq, take_until-eq, line_ending-eq}
  open combs use {pair-eq}

  pub end_of_multiline-dot :
      (tail : Bytes) → end_of_multiline nom (b'.' ∷ 0x0d ∷ 0x0a ∷ tail) ≡ done tail tt
  unfolding end_of_multiline
  end_of_multiline-dot tail =
      rw
        (
          pair-eq (nom.tag (b'.' ∷ [])) nom.line_ending (b'.' ∷ 0x0d ∷ 0x0a ∷ tail),
          tag-eq (b'.' ∷ []) (b'.' ∷ 0x0d ∷ 0x0a ∷ tail),
          line_ending-eq (0x0d ∷ 0x0a ∷ tail),
        )
        refl

  -- The parser behind the status and its text.
  abbrev content_parser : Parser Response
  content_parser = do
    found ← nom.take_until end_of_message
    eol nom
    end_of_multiline nom
    pure (Response.bytes found)

  content-Untold :
      (content tail part more : Bytes)
      → Unended tail content
      → (content ++ end_of_message) ++ tail ≡ part ++ more
      → Untold content_parser tail (Response.bytes content) part more
  content-Untold content tail part more h e =
      elim (taken_until-cut content tail part more h
        (sym (append_assoc content end_of_message tail) ∙ e)) [
          | inl w ↦ inl (rw (take_until-eq end_of_message part, w) refl)
          | inr (left, split, d) ↦ inr (
            left,
            split,
            rw
                (
                  take_until-eq end_of_message part,
                  d,
                  eol-crlf nom prims combs (b'.' ∷ 0x0d ∷ 0x0a ∷ left),
                  end_of_multiline-dot left,
                )
                refl,
          )
        ]

  Streams-content :
      (content tail : Bytes)
      → Unended tail content
      → Streams content_parser (content ++ end_of_message) tail (Response.bytes content)
  Streams-content content tail h = record {
    whole =
        rw
          (
            append_assoc content end_of_message tail,
            take_until-eq end_of_message (content ++ (end_of_message ++ tail)),
            taken_until-whole content tail h,
            eol-crlf nom prims combs (b'.' ∷ 0x0d ∷ 0x0a ∷ tail),
            end_of_multiline-dot tail,
          )
          refl;
    cut = λ part more e ne.
        Cut-Untold content_parser part more (content-Untold content tail part more h e);
  }

  -- The message is given as it was sent, with its doubled dots and without its last end of line.
  pub Streams-rfc822_response :
      (text line tail : Bytes) (lines : List Bytes)
      → IsLine text
      → AllLines (line ∷ lines)
      → Streams
          (rfc822_response nom)
          ((text ++ crlf) ++ (content_of line lines ++ end_of_message))
          tail
          (Response.bytes (content_of line lines))
  unfolding rfc822_response
  Streams-rfc822_response text line tail lines h hs =
      Streams-bind (message_parser nom) _ (text ++ crlf) (content_of line lines ++ end_of_message)
        tail (some text) _
        (Streams-message_parser nom prims combs text
          ((content_of line lines ++ end_of_message) ++ tail) h)
        (Streams-content (content_of line lines) tail (content-Unended tail line lines hs))

  -- A part of the answer behind its status never says how much is missing.
  pub rfc822_response-Untold :
      (text line tail part more : Bytes) (lines : List Bytes)
      → IsLine text
      → AllLines (line ∷ lines)
      → ((text ++ crlf) ++ (content_of line lines ++ end_of_message)) ++ tail ≡ part ++ more
      → more ≢ []
      → Untold (rfc822_response nom) tail (Response.bytes (content_of line lines)) part more
  unfolding rfc822_response
  rfc822_response-Untold text line tail part more lines h hs =
      Untold-bind (message_parser nom) _ (text ++ crlf) (content_of line lines ++ end_of_message)
        tail (some text) _
        (λ part more e ne.
          message_parser-Untold nom prims combs text
            ((content_of line lines ++ end_of_message) ++ tail) part more h e ne)
        (λ part more e ne.
          content-Untold (content_of line lines) tail part more (content-Unended tail line lines hs)
            e)
        part more
