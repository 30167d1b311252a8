-- ===== src/Pop2/Parser/Answers.antt =====
-- The answers that a server gives, after RFC 1939 and RFC 2449: how they are written, and the responses that they stand for.
-- The parser is compared with them.
pub mod Selects
pub mod Asks
pub mod Reads
pub mod Numbers
use getemail.Base.{
  ◌≡◌, ◌⊎◌, Bool, true, false, List, [], ◌∷◌, ◌++◌, Bytes, Option, none, some, IsLine, map,
}
use getemail.Base.Decimal.{is_digit}
use getemail.Pop2.Command.{Command, uidl, top, retr, list, stat, capa}
use getemail.Pop2.Response.{Capability, UidlResponse, Response}
use getemail.Pop2.Nom.Laws.{is_space}
use getemail.Pop2.Parser.Rfc1939.{new_text}
use getemail.Pop2.Parser.Primitives.{StopsAt}
use getemail.Pop2.Parser.Lines.{crlf, status_tag}
use getemail.Pop2.Parser.Messages.{AllLines, content_of, end_of_message}
use getemail.Pop2.Parser.Listings.{
  ScanLine, IsScanLine, scan_text, scanned, IdLine, IsIdLine, id_text, identified, block, Each,
}
use getemail.Pop2.Parser.Capabilities.Stated.{capability_text, IsStated}
use getemail.Pop2.Parser.Headings.{Heading, IsHeading, heading_text, announced}

pub data Answer : Type 0 where
  remark : Bytes → Answer
  refusal : Bytes → Answer
  numbers : ScanLine → Answer
  mail : Bytes → Bytes → List Bytes → Answer
  one_id : IdLine → Answer
  ids : Bytes → List IdLine → Answer
  scans : Bytes → List ScanLine → Answer
  headed_scans : Heading → List ScanLine → Answer
  capabilities : Bytes → List Capability → Answer

abbrev pub is_success : Answer → Bool
is_success (refusal bytes) = false
is_success _ = true

-- What stands behind the status and its spaces. A message is written line by line, a line that begins with
-- a dot with one dot more.
abbrev pub body : Answer → Bytes
body (remark bytes) = bytes ++ crlf
body (refusal bytes) = bytes ++ crlf
body (numbers l) = scan_text l
body (mail bytes line lines) = (bytes ++ crlf) ++ (content_of line lines ++ end_of_message)
body (one_id l) = id_text l
body (ids bytes ls) = (bytes ++ crlf) ++ block id_text ls
body (scans bytes ls) = (bytes ++ crlf) ++ block scan_text ls
body (headed_scans h ls) = heading_text h ++ block scan_text ls
body (capabilities bytes cs) = (bytes ++ crlf) ++ block capability_text cs

abbrev pub written : Bytes → Answer → Bytes
written spaces a = (status_tag (is_success a) ++ spaces) ++ body a

abbrev pub value : Answer → Response
value (remark bytes) = Response.message (new_text bytes)
value (refusal bytes) = Response.err (new_text bytes)
value (numbers l) = Response.stat (scanned l)
value (mail bytes line lines) = Response.bytes (content_of line lines)
value (one_id l) = Response.uidl (UidlResponse.single (identified l))
value (ids bytes ls) =
    Response.uidl (
      UidlResponse.multiple (record { message = some (new_text bytes); items = map identified ls }))
value (scans bytes ls) = Response.list (record { stats = none; items = map scanned ls })
value (headed_scans h ls) =
    Response.list (record { stats = some (announced h); items = map scanned ls })
value (capabilities bytes cs) = Response.capability cs

-- The commands that are answered by a line of text.
abbrev pub HasText : Command → Type 0
HasText uidl = ⊥
HasText top = ⊥
HasText retr = ⊥
HasText list = ⊥
HasText stat = ⊥
HasText capa = ⊥
HasText _ = Unit {0}

-- A line that the spaces behind the status are not part of.
abbrev pub IsMessage : Bytes → Type 0
IsMessage text = IsLine text × StopsAt is_space (text ++ crlf)

-- The text of a status that is not taken for a number.
abbrev pub IsTitle : Bytes → Type 0
IsTitle bytes = IsMessage bytes × StopsAt is_digit (bytes ++ crlf)

-- The answers to each command.
abbrev pub Fits : Command → Answer → Type 0
Fits c (remark bytes) = HasText c × IsMessage bytes
Fits c (refusal bytes) = IsMessage bytes
Fits c (numbers l) = ((c ≡ stat) ⊎ (c ≡ list)) × IsScanLine l
Fits c (mail bytes line lines) =
    ((c ≡ retr) ⊎ (c ≡ top)) × IsMessage bytes × AllLines (line ∷ lines)
Fits c (one_id l) = (c ≡ uidl) × IsIdLine l
Fits c (ids bytes ls) = (c ≡ uidl) × IsTitle bytes × Each IsIdLine ls
Fits c (scans bytes ls) = (c ≡ list) × IsTitle bytes × Each IsScanLine ls
Fits c (headed_scans h ls) = (c ≡ list) × IsHeading h × Each IsScanLine ls
Fits c (capabilities bytes cs) = (c ≡ capa) × IsMessage bytes × Each IsStated cs
