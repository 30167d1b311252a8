-- ===== src/Pop2/Parser/Answers/Asks.antt =====
-- How many bytes the parser asks for while an answer comes in.
use getemail.Base.{
  ℕ, Bool, false, ◌≤◌, arith, length-append, IsLine, ◌+◌, ◌≡◌, ◌≢◌, ◌⊎◌, inl, inr, true, [], ◌∷◌,
  ◌++◌, Bytes, Option, append-nil, length, ◌∙◌, List,
}
use getemail.Pop2.Command.{Command, uidl, top, retr, list, stat, capa}
use getemail.Pop2.Nom.{Nom}
use getemail.Pop2.Stream.Progress.{Anywhere}
use getemail.Pop2.Nom.Laws.{LawfulPrimitives, LawfulCombinators, is_space}
use getemail.Pop2.Response.{Response}
use getemail.Pop2.Parser.{success_response, by_status, status_response, parse}
use getemail.Pop2.Parser.Streams.{NotLineFeed, Untold, Streams}
use getemail.Pop2.Parser.Primitives.{All, StopsAt}
use getemail.Pop2.Parser.Lines.{crlf, status_tag, string_response-Untold, error_response-Untold}
use getemail.Pop2.Parser.Messages.{AllLines, content_of, end_of_message, rfc822_response-Untold}
use getemail.Pop2.Parser.Asked.{AsksWithin, AsksWithin-Streams, AsksWithin-status, AsksWithin-parse}
use getemail.Pop2.Parser.Answers.{
  Answer, remark, refusal, numbers, mail, one_id, ids, scans, headed_scans, capabilities, body,
  written, value, Fits, IsMessage, HasText,
}
use getemail.Pop2.Parser.Answers.Selects.{body_stops}

-- The bytes that are asked for at most. Behind the status of a line or of a message nothing is asked for, since its
-- end is searched for.
abbrev pub asked : Bytes → Answer → ℕ
asked spaces (remark bytes) = length (status_tag true ++ spaces) + 1
asked spaces (refusal bytes) = length (status_tag false ++ spaces) + 1
asked spaces (mail title line lines) = length (status_tag true ++ spaces) + 1
asked spaces a = length (written spaces a)

-- Where a piece of the answer may end: anywhere, if its end is searched for, and else not in front of a line feed.
abbrev pub MayEnd : Answer → Bytes → Type 0
MayEnd (remark bytes) = Anywhere
MayEnd (refusal bytes) = Anywhere
MayEnd (mail title line lines) = Anywhere
MayEnd _ = NotLineFeed

-- It is not more than there is.
pub asked_low : (a : Answer) (spaces : Bytes) → asked spaces a ≤ length (written spaces a)
asked_low (remark bytes) spaces =
    omega
      (arith, length-append (status_tag true ++ spaces) (bytes ++ crlf), length-append bytes crlf)
asked_low (refusal bytes) spaces =
    omega
      (arith, length-append (status_tag false ++ spaces) (bytes ++ crlf), length-append bytes crlf)
asked_low (mail title line lines) spaces = omega (
  arith,
  length-append (status_tag true ++ spaces) (body (mail title line lines)),
  length-append (title ++ crlf) (content_of line lines ++ end_of_message),
  length-append title crlf,
)
asked_low (numbers l) spaces = omega arith
asked_low (one_id l) spaces = omega arith
asked_low (ids bytes ls) spaces = omega arith
asked_low (scans bytes ls) spaces = omega arith
asked_low (headed_scans l ls) spaces = omega arith
asked_low (capabilities bytes cs) spaces = omega arith

module _ (nom : Nom) (prims : LawfulPrimitives nom) (combs : LawfulCombinators nom) where
  mail_text :
      (c : Command) (title line : Bytes) (lines : List Bytes)
      → (c ≡ retr) ⊎ (c ≡ top)
      → IsMessage title
      → AllLines (line ∷ lines)
      → (part more : Bytes) → body (mail title line lines) ≡ part ++ more
      → more ≢ []
      → Untold (by_status nom c true) [] (value (mail title line lines)) part more
  unfolding by_status success_response
  mail_text c title line lines (inl is_retr) m ls part more e ne = rw is_retr (
      rfc822_response-Untold nom prims combs title line [] part more lines m.0 ls
        (append-nil (body (mail title line lines)) ∙ e) ne)
  mail_text c title line lines (inr is_top) m ls part more e ne = rw is_top (
      rfc822_response-Untold nom prims combs title line [] part more lines m.0 ls
        (append-nil (body (mail title line lines)) ∙ e) ne)

  remark_text :
      (c : Command) (bytes part more : Bytes)
      → HasText c
      → IsLine bytes
      → bytes ++ crlf ≡ part ++ more
      → more ≢ []
      → Untold (by_status nom c true) [] (value (remark bytes)) part more
  unfolding by_status success_response
  remark_text uidl bytes part more t h e ne = absurd t
  remark_text top bytes part more t h e ne = absurd t
  remark_text retr bytes part more t h e ne = absurd t
  remark_text list bytes part more t h e ne = absurd t
  remark_text stat bytes part more t h e ne = absurd t
  remark_text capa bytes part more t h e ne = absurd t
  remark_text c bytes part more t h e ne =
      string_response-Untold nom prims combs bytes [] part more h (append-nil (bytes ++ crlf) ∙ e)
        ne

  refusal_text :
      (c : Command) (bytes part more : Bytes)
      → IsLine bytes
      → bytes ++ crlf ≡ part ++ more
      → more ≢ []
      → Untold (by_status nom c false) [] (value (refusal bytes)) part more
  unfolding by_status
  refusal_text c bytes part more h e ne =
      error_response-Untold nom prims combs bytes [] part more h (append-nil (bytes ++ crlf) ∙ e) ne

  module _ (decode : Bytes → Option Bytes) where
    AsksWithin-body :
        (c : Command) (success : Bool) (spaces text : Bytes) (r : Response)
        → All is_space spaces
        → StopsAt is_space text
        → ((part more : Bytes)
            → text ≡ part ++ more
            → more ≢ []
            → Untold (by_status nom c success) [] r part more)
        → AsksWithin Anywhere
            (λ input. parse nom decode input c)
            ((status_tag success ++ spaces) ++ text)
            (length (status_tag success ++ spaces) + 1)
    unfolding status_response
    AsksWithin-body c success spaces text r h stop later =
        AsksWithin-parse nom prims combs success spaces h decode c text (
          AsksWithin-status nom prims combs success spaces h (λ s. by_status nom c s.success) text r
            stop later)

    -- While an answer comes in, in pieces that end where they may, the parser asks for no byte behind these.
    pub AsksWithin-written :
        (c : Command) (a : Answer) (spaces : Bytes)
        → All is_space spaces
        → Fits c a
        → Streams (λ input. parse nom decode input c) (written spaces a) [] (value a)
        → AsksWithin
            (MayEnd a)
            (λ input. parse nom decode input c)
            (written spaces a)
            (asked spaces a)
    AsksWithin-written c (mail title line lines) spaces h f s =
        AsksWithin-body c true spaces (body (mail title line lines)) (value (mail title line lines))
          h (body_stops c (mail title line lines) f) (mail_text c title line lines f.0 f.1 f.2)
    AsksWithin-written c (remark bytes) spaces h f s =
        AsksWithin-body c true spaces (bytes ++ crlf) (value (remark bytes)) h f.1.1
          (λ part more e ne. remark_text c bytes part more f.0 f.1.0 e ne)
    AsksWithin-written c (refusal bytes) spaces h f s =
        AsksWithin-body c false spaces (bytes ++ crlf) (value (refusal bytes)) h f.1
          (λ part more e ne. refusal_text c bytes part more f.0 e ne)
    AsksWithin-written c (numbers l) spaces h f s =
        AsksWithin-Streams _ (written spaces (numbers l)) (value (numbers l)) s
    AsksWithin-written c (one_id l) spaces h f s =
        AsksWithin-Streams _ (written spaces (one_id l)) (value (one_id l)) s
    AsksWithin-written c (ids bytes ls) spaces h f s =
        AsksWithin-Streams _ (written spaces (ids bytes ls)) (value (ids bytes ls)) s
    AsksWithin-written c (scans bytes ls) spaces h f s =
        AsksWithin-Streams _ (written spaces (scans bytes ls)) (value (scans bytes ls)) s
    AsksWithin-written c (headed_scans l ls) spaces h f s =
        AsksWithin-Streams _ (written spaces (headed_scans l ls)) (value (headed_scans l ls)) s
    AsksWithin-written c (capabilities bytes cs) spaces h f s =
        AsksWithin-Streams _ (written spaces (capabilities bytes cs))
          (value (capabilities bytes cs)) s
