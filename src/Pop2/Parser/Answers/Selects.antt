-- ===== src/Pop2/Parser/Answers/Selects.antt =====
-- What the text behind the status is read as, for each command.
use getemail.Base.{
  ◌≡◌, sym, subst, ◌⊎◌, inl, inr, true, false, List, [], ◌∷◌, ◌++◌, Bytes, none, some, arith,
  append_assoc, IsLine, map,
}
use getemail.Base.Decimal.{is_digit}
use getemail.Pop2.Command.{Command, uidl, top, retr, list, stat, capa}
use getemail.Pop2.Response.{UidlResponse, Response}
use getemail.Pop2.Nom.{Nom}
use getemail.Pop2.Nom.Laws.{LawfulPrimitives, LawfulCombinators, is_space}
use getemail.Pop2.Parser.{by_status, success_response}
use getemail.Pop2.Parser.Rfc1939
use getemail.Pop2.Parser.Rfc1939.{
  new_text, uidl_response, uidl_list_response, stat_response, list_response, rfc822_response,
}
use getemail.Pop2.Parser.Streams.{Streams, Streams-first, Streams-other, Streams-last, Rejects-bind}
use getemail.Pop2.Parser.Primitives.{StopsAt}
use getemail.Pop2.Parser.Lines.{crlf, Streams-string_response, Streams-error_response}
use getemail.Pop2.Parser.Stats.{Some, digit_stops, crlf_stops, Streams-stat_response, line_of}
use getemail.Pop2.Parser.Messages.{AllLines, Streams-rfc822_response}
use getemail.Pop2.Response.{Capability}
use getemail.Pop2.Parser.Capabilities.Stated.{IsStated}
use getemail.Pop2.Parser.Capabilities.Lists.{Streams-capability_response}
use getemail.Pop2.Parser.Headings.{
  Heading, IsHeading, heading_text, Rejects-stat, Streams-list_heading,
}
use getemail.Pop2.Parser.Listings.{
  ScanLine, IsScanLine, scan_text, scanned, IdLine, IsIdLine, id_text, identified, block, Each,
  Rejects-number, Streams-uidl_response, Streams-uidl_list_response, Streams-list_response,
}
use getemail.Pop2.Parser.Answers.{
  Answer, remark, refusal, numbers, mail, one_id, ids, scans, headed_scans, capabilities,
  is_success, body, value, HasText, Fits,
}

module _ (nom : Nom) (prims : LawfulPrimitives nom) (combs : LawfulCombinators nom) where
  Streams-refusal :
      (c : Command) (bytes tail : Bytes)
      → IsLine bytes
      → Streams (by_status nom c false) (bytes ++ crlf) tail (Response.err (new_text bytes))
  unfolding by_status
  Streams-refusal c bytes tail h = Streams-error_response nom prims combs bytes tail h

  Streams-text :
      (c : Command) (bytes tail : Bytes)
      → HasText c
      → IsLine bytes
      → Streams (by_status nom c true) (bytes ++ crlf) tail (Response.message (new_text bytes))
  unfolding by_status success_response
  Streams-text uidl bytes tail a h = absurd a
  Streams-text top bytes tail a h = absurd a
  Streams-text retr bytes tail a h = absurd a
  Streams-text list bytes tail a h = absurd a
  Streams-text stat bytes tail a h = absurd a
  Streams-text capa bytes tail a h = absurd a
  Streams-text c bytes tail a h = Streams-string_response nom prims combs bytes tail h

  Streams-stat_numbers :
      (l : ScanLine) (tail : Bytes)
      → IsScanLine l
      → Streams (by_status nom stat true) (scan_text l) tail (Response.stat (scanned l))
  unfolding by_status success_response
  Streams-stat_numbers l tail h =
      Streams-stat_response nom prims combs l.count l.gap l.octets l.extra tail h.0 h.1 h.2 h.3

  Streams-list_numbers :
      (l : ScanLine) (tail : Bytes)
      → IsScanLine l
      → Streams (by_status nom list true) (scan_text l) tail (Response.stat (scanned l))
  unfolding by_status success_response
  Streams-list_numbers l tail h =
      Streams-first nom combs (stat_response nom) (list_response nom) []
        (Streams-stat_response nom prims combs l.count l.gap l.octets l.extra tail h.0 h.1 h.2 h.3)

  Streams-numbers :
      (c : Command) (l : ScanLine) (tail : Bytes)
      → (c ≡ stat) ⊎ (c ≡ list)
      → IsScanLine l
      → Streams (by_status nom c true) (scan_text l) tail (Response.stat (scanned l))
  Streams-numbers c l tail (inl e) h =
      subst (λ c. Streams (by_status nom c true) (scan_text l) tail (Response.stat (scanned l)))
        (sym e) (Streams-stat_numbers l tail h)
  Streams-numbers c l tail (inr e) h =
      subst (λ c. Streams (by_status nom c true) (scan_text l) tail (Response.stat (scanned l)))
        (sym e) (Streams-list_numbers l tail h)

  Streams-mail :
      (c : Command) (bytes line tail : Bytes) (lines : List Bytes)
      → (c ≡ retr) ⊎ (c ≡ top)
      → IsLine bytes
      → AllLines (line ∷ lines)
      → Streams
          (by_status nom c true)
          (body (mail bytes line lines))
          tail
          (value (mail bytes line lines))
  unfolding by_status success_response
  Streams-mail c bytes line tail lines (inl e) h hs =
      rw e (Streams-rfc822_response nom prims combs bytes line tail lines h hs)
  Streams-mail c bytes line tail lines (inr e) h hs =
      rw e (Streams-rfc822_response nom prims combs bytes line tail lines h hs)

  Streams-uidl_listing :
      (text tail : Bytes) (xs : List IdLine)
      → IsLine text
      → StopsAt is_digit (text ++ crlf)
      → Each IsIdLine xs
      → Streams (by_status nom uidl true) ((text ++ crlf) ++ block id_text xs) tail (
          Response.uidl (
            UidlResponse.multiple
              (record { message = some (new_text text); items = map identified xs })))
  unfolding by_status success_response uidl_response Rfc1939.uidl
  Streams-uidl_listing text tail xs h stop hs =
      Streams-other nom combs (uidl_response nom) (uidl_list_response nom) []
        (Rejects-bind (Rfc1939.uidl nom) _ _ (
          Rejects-number nom prims combs _ _ (
            rw (append_assoc (text ++ crlf) (block id_text xs) tail)
              (crlf_stops is_digit text (block id_text xs ++ tail) stop))))
        (Streams-last nom combs (uidl_list_response nom)
          (Streams-uidl_list_response nom prims combs text tail xs h hs))

  -- A heading that looks like an item is taken for the whole answer.
  Streams-uidl_single :
      (l : IdLine) (tail : Bytes)
      → IsIdLine l
      → Streams
          (by_status nom uidl true)
          (id_text l)
          tail
          (Response.uidl (UidlResponse.single (identified l)))
  unfolding by_status success_response
  Streams-uidl_single l tail h =
      Streams-first nom combs (uidl_response nom) (uidl_list_response nom) []
        (Streams-uidl_response nom prims combs l tail h)

  Streams-list_listing :
      (text tail : Bytes) (xs : List ScanLine)
      → IsLine text
      → StopsAt is_digit (text ++ crlf)
      → Each IsScanLine xs
      → Streams
          (by_status nom list true)
          ((text ++ crlf) ++ block scan_text xs)
          tail
          (Response.list (record { stats = none; items = map scanned xs }))
  unfolding by_status success_response stat_response Rfc1939.stat
  Streams-list_listing text tail xs h stop hs =
      Streams-other nom combs (stat_response nom) (list_response nom) []
        (Rejects-bind (Rfc1939.stat nom) _ _ (
          Rejects-number nom prims combs _ _ (
            rw (append_assoc (text ++ crlf) (block scan_text xs) tail)
              (crlf_stops is_digit text (block scan_text xs ++ tail) stop))))
        (Streams-last nom combs (list_response nom)
          (Streams-list_response nom prims combs text tail xs h stop hs))

  Streams-headed :
      (h : Heading) (tail : Bytes) (xs : List ScanLine)
      → IsHeading h
      → Each IsScanLine xs
      → Streams
          (by_status nom list true)
          (body (headed_scans h xs))
          tail
          (value (headed_scans h xs))
  unfolding by_status success_response stat_response
  Streams-headed h tail xs ok hs =
      Streams-other nom combs (stat_response nom) (list_response nom) []
        (Rejects-bind (Rfc1939.stat nom) _ _ (
          rw (append_assoc (heading_text h) (block scan_text xs) tail)
            (Rejects-stat nom prims combs h (block scan_text xs ++ tail) ok)))
        (Streams-last nom combs (list_response nom)
          (Streams-list_heading nom prims combs h tail xs ok hs))

  Streams-capabilities :
      (bytes tail : Bytes) (cs : List Capability)
      → IsLine bytes
      → Each IsStated cs
      → Streams
          (by_status nom capa true)
          (body (capabilities bytes cs))
          tail
          (value (capabilities bytes cs))
  unfolding by_status success_response
  Streams-capabilities bytes tail cs h hs =
      Streams-capability_response nom prims combs bytes tail cs h hs

  -- Each answer, by the command that it is given to.
  pub Streams-Answer :
      (c : Command) (a : Answer) (tail : Bytes)
      → Fits c a
      → Streams (by_status nom c (is_success a)) (body a) tail (value a)
  Streams-Answer c (remark bytes) tail f = Streams-text c bytes tail f.0 f.1.0
  Streams-Answer c (refusal bytes) tail f = Streams-refusal c bytes tail f.0
  Streams-Answer c (numbers l) tail f = Streams-numbers c l tail f.0 f.1
  Streams-Answer c (mail bytes line lines) tail f =
      Streams-mail c bytes line tail lines f.0 f.1.0 f.2
  Streams-Answer c (one_id l) tail f = rw (f.0) (Streams-uidl_single l tail f.1)
  Streams-Answer c (ids bytes ls) tail f =
      rw (f.0) (Streams-uidl_listing bytes tail ls f.1.0.0 f.1.1 f.2)
  Streams-Answer c (scans bytes ls) tail f =
      rw (f.0) (Streams-list_listing bytes tail ls f.1.0.0 f.1.1 f.2)
  Streams-Answer c (headed_scans h ls) tail f = rw (f.0) (Streams-headed h tail ls f.1 f.2)
  Streams-Answer c (capabilities bytes cs) tail f =
      rw (f.0) (Streams-capabilities bytes tail cs f.1.0 f.2)

digits_stop : (digits rest : Bytes) → Some is_digit digits → StopsAt is_space (digits ++ rest)
digits_stop [] rest h = absurd h
digits_stop (d ∷ digits) rest h = ground (arith, h.0)

-- No answer begins with a space.
pub body_stops : (c : Command) (a : Answer) → Fits c a → StopsAt is_space (body a)
unfolding line_of id_text heading_text
body_stops c (remark bytes) f = f.1.1
body_stops c (refusal bytes) f = f.1
body_stops c (numbers l) f = digits_stop l.count _ f.1.0
body_stops c (mail bytes line lines) f = crlf_stops is_space bytes _ f.1.1
body_stops c (one_id l) f = digits_stop l.index _ f.1.0
body_stops c (ids bytes ls) f = crlf_stops is_space bytes _ f.1.0.1
body_stops c (scans bytes ls) f = crlf_stops is_space bytes _ f.1.0.1
body_stops c (headed_scans h ls) f = digit_stops h.count _ (block scan_text ls) f.1.0
body_stops c (capabilities bytes cs) f = crlf_stops is_space bytes _ f.1.1
