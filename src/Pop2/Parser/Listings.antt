-- ===== src/Pop2/Parser/Listings.antt =====
-- The answers to LIST and UIDL: the items of a listing, one to a line, and a line that is a dot.
use getemail.Base.{
  ◌≢◌, ◌≤◌, refl, subst, List, [], ◌∷◌, ◌++◌, Bytes, Option, none, some, arith, append_assoc,
  IsLine, length, map, ◌==◌,
}
use getemail.Base.Decimal.{is_digit}
use getemail.Pop2.Response.{Stat, UniqueId, UidlResponse, Response}
use getemail.Pop2.Nom.{Nom, Parser, pure, ◌>>=◌}
use getemail.Pop2.Nom.Laws.{LawfulPrimitives, LawfulCombinators, is_space, taken_m_n, taken_while1}
use getemail.Pop2.Parser.Core.{eol, end_of_multiline, message_parser}
use getemail.Pop2.Parser.Rfc1939.{
  new_number, new_text, is_valid_char, undotted, stat, list_stats, list_response, unique_id, uidl,
  uidl_response, uidl_list_response,
}
use getemail.Pop2.Parser.Streams.{
  Streams, Rejects, Streams-eq, Streams-bind, Streams-map, Streams-other, Streams-last,
  Streams-till_end, Streams-till_next, Rejects-eq, Rejects-bind,
}
use getemail.Pop2.Parser.Primitives.{StopsAt, Rejects-taken_while1}
use getemail.Pop2.Parser.Lines.{crlf, Streams-message_parser}
use getemail.Pop2.Parser.Stats.{
  Some, All-Some, length-Some, IsExtra, line_of, space_stops, crlf_stops, Streams-number,
  Streams-spaces, Streams-stat,
}
use getemail.Pop2.Parser.Endings.{
  Streams-taken_m_n, Streams-undotted, Rejects-end_of_multiline, Streams-eol,
  Streams-end_of_multiline,
}

-- A line of each kind of listing.
pub record ScanLine : Type 0 where
  pub count : Bytes
  pub gap : Bytes
  pub octets : Bytes
  pub extra : Bytes

abbrev pub IsScanLine : ScanLine → Type 0
IsScanLine l =
    Some is_digit l.count × Some is_space l.gap × Some is_digit l.octets × IsExtra l.extra

abbrev pub scan_text : ScanLine → Bytes
scan_text l = line_of l.count l.gap l.octets l.extra

abbrev pub scanned : ScanLine → Stat
scanned l = record { message_count = new_number l.count; size = new_number l.octets }

pub record IdLine : Type 0 where
  pub index : Bytes
  pub gap : Bytes
  pub unique : Bytes

abbrev pub IsIdLine : IdLine → Type 0
IsIdLine l =
    Some is_digit l.index
    × Some is_space l.gap
    × Some is_valid_char l.unique
    × (length l.unique ≤ 70)

unfoldable pub id_text : IdLine → Bytes
id_text l = l.index ++ (l.gap ++ (l.unique ++ crlf))

abbrev pub identified : IdLine → UniqueId
identified l = record { index = new_number l.index; id = new_text l.unique }

-- The lines of a listing, and its end.
abbrev pub block : {X : Type 0} → (X → Bytes) → List X → Bytes
block text [] = b'.' ∷ crlf
block text (x ∷ xs) = text x ++ block text xs

abbrev pub Each : {X : Type 0} → (X → Type 0) → List X → Type 0
Each P [] = Unit {0}
Each P (x ∷ xs) = P x × Each P xs

digits_no_dot :
    (digits rest : Bytes) → Some is_digit digits → StopsAt (λ c. c == b'.') (digits ++ rest)
digits_no_dot [] rest h = absurd h
digits_no_dot (d ∷ digits) rest h = ground (arith, h.0)

scan_text_no_dot :
    (l : ScanLine) (rest : Bytes) → IsScanLine l → StopsAt (λ c. c == b'.') (scan_text l ++ rest)
unfolding line_of
scan_text_no_dot l rest h =
    rw (append_assoc l.count (l.gap ++ (l.octets ++ (l.extra ++ crlf))) rest)
      (digits_no_dot l.count _ h.0)

id_text_no_dot :
    (l : IdLine) (rest : Bytes) → IsIdLine l → StopsAt (λ c. c == b'.') (id_text l ++ rest)
unfolding id_text
id_text_no_dot l rest h =
    rw (append_assoc l.index (l.gap ++ (l.unique ++ crlf)) rest) (digits_no_dot l.index _ h.0)

id_stops : (id rest : Bytes) → Some is_valid_char id → StopsAt is_space ((id ++ rest))
id_stops [] rest h = absurd h
id_stops (c ∷ id) rest h = ground (arith, h.0)

module _ (nom : Nom) (prims : LawfulPrimitives nom) (combs : LawfulCombinators nom) where
  open prims use {digit1-eq, take_while_m_n-eq}
  open combs use {map-eq}

  -- A parser that begins with a number refuses what does not.
  pub Rejects-number :
      {A : Type 0} (f : Bytes → Parser A) (input : Bytes)
      → StopsAt is_digit input
      → Rejects (nom.digit1 >>= f) input
  Rejects-number f input stop = Rejects-bind nom.digit1 f input (
      Rejects-eq nom.digit1 (taken_while1 is_digit) digit1-eq
        (Rejects-taken_while1 is_digit input stop))

  Streams-unique_id :
      (id tail : Bytes)
      → Some is_valid_char id
      → length id ≤ 70
      → StopsAt is_valid_char tail
      → Streams (unique_id nom) id tail id
  unfolding unique_id
  Streams-unique_id id tail h k stop =
      Streams-eq (nom.take_while_m_n 1 70 is_valid_char) (taken_m_n 1 70 is_valid_char)
        (take_while_m_n-eq 1 70 is_valid_char)
        (Streams-taken_m_n is_valid_char 1 70 id tail (length-Some is_valid_char id h) k
          (All-Some is_valid_char id h) stop)

  pub Streams-uidl :
      (l : IdLine) (tail : Bytes) → IsIdLine l → Streams (uidl nom) (id_text l) tail (identified l)
  unfolding uidl id_text
  Streams-uidl l tail h =
      Streams-bind nom.digit1 _ l.index (l.gap ++ (l.unique ++ crlf)) tail l.index (identified l)
        (Streams-number nom prims combs l.index ((l.gap ++ (l.unique ++ crlf)) ++ tail) h.0
          (space_stops l.gap _ tail h.1))
        (Streams-bind nom.space1 _ l.gap (l.unique ++ crlf) tail l.gap (identified l)
          (Streams-spaces nom prims combs l.gap ((l.unique ++ crlf) ++ tail) h.1
            (rw (append_assoc l.unique crlf tail) (id_stops l.unique (crlf ++ tail) h.2)))
          (Streams-bind (unique_id nom) _ l.unique crlf tail l.unique (identified l)
            (Streams-unique_id l.unique (crlf ++ tail) h.2 h.3 refl)
            (Streams-map (eol nom) (λ _. identified l) (Streams-eol nom prims combs tail))))

  -- All lines of a listing are read, up to the dot.
  module _ {X A : Type 0} (p : Parser A) (text : X → Bytes) (value : X → A) (Ok : X → Type 0)
      (no_dot : (x : X) (rest : Bytes) → Ok x → StopsAt (λ c. c == b'.') (text x ++ rest))
      (streams : (x : X) (tail : Bytes) → Ok x → Streams p (text x) tail (value x)) where
    some_text : (x : X) → Ok x → text x ≢ []
    some_text x h e = subst (λ bs. StopsAt (λ c. c == b'.') (bs ++ [])) e (no_dot x [] h)

    pub Streams-block :
        (xs : List X) (tail : Bytes)
        → Each Ok xs
        → Streams (nom.many_till p (end_of_multiline nom)) (block text xs) tail (map value xs, tt)
    Streams-block [] tail h =
        Streams-till_end nom combs p (end_of_multiline nom)
          (Streams-end_of_multiline nom prims combs tail)
    Streams-block (x ∷ xs) tail h =
        Streams-till_next nom combs p (end_of_multiline nom) (text x) (block text xs) tail (value x)
          (map value xs) tt (some_text x h.0)
          (Rejects-end_of_multiline nom prims combs (text x ++ (block text xs ++ tail))
            (no_dot x (block text xs ++ tail) h.0))
          (streams x (block text xs ++ tail) h.0) (Streams-block xs tail h.1)

  pub Streams-uidl_list_response :
      (text tail : Bytes) (xs : List IdLine)
      → IsLine text
      → Each IsIdLine xs
      → Streams (uidl_list_response nom) ((text ++ crlf) ++ block id_text xs) tail (
          Response.uidl (
            UidlResponse.multiple
              (record { message = some (new_text text); items = map identified xs })))
  unfolding uidl_list_response
  Streams-uidl_list_response text tail xs h hs =
      Streams-bind (message_parser nom) _ (text ++ crlf) (block id_text xs) tail (some text) _
        (Streams-message_parser nom prims combs text (block id_text xs ++ tail) h)
        (Streams-map (nom.many_till (undotted nom (uidl nom)) (end_of_multiline nom))
          (λ (list, _).
            Response.uidl
              (UidlResponse.multiple (record { message = some (new_text text); items = list })))
          (Streams-block (undotted nom (uidl nom)) id_text identified IsIdLine id_text_no_dot
            (λ l rest ok.
              Streams-undotted nom prims combs (uidl nom) (id_text l) rest (identified l)
                (id_text_no_dot l rest ok) (Streams-uidl l rest ok))
            xs tail hs))

  pub Streams-uidl_response :
      (l : IdLine) (tail : Bytes)
      → IsIdLine l
      → Streams
          (uidl_response nom)
          (id_text l)
          tail
          (Response.uidl (UidlResponse.single (identified l)))
  unfolding uidl_response
  Streams-uidl_response l tail h =
      Streams-map (uidl nom) (λ id. Response.uidl (UidlResponse.single id)) (Streams-uidl l tail h)

  -- The items of a scan listing, behind its heading.
  pub Streams-scan_lines :
      (stats : Option Stat) (tail : Bytes) (xs : List ScanLine)
      → Each IsScanLine xs
      → Streams
          (nom.many_till (undotted nom (stat nom)) (end_of_multiline nom) >>= λ (items, _).
            pure (Response.list (record { stats = stats; items = items })))
          (block scan_text xs)
          tail
          (Response.list (record { stats = stats; items = map scanned xs }))
  Streams-scan_lines stats tail xs hs =
      Streams-map (nom.many_till (undotted nom (stat nom)) (end_of_multiline nom))
        (λ (items, _). Response.list (record { stats = stats; items = items }))
        (Streams-block (undotted nom (stat nom)) scan_text scanned IsScanLine scan_text_no_dot
          (λ l rest ok.
            Streams-undotted nom prims combs (stat nom) (scan_text l) rest (scanned l)
              (scan_text_no_dot l rest ok)
              (Streams-stat nom prims combs l.count l.gap l.octets l.extra rest ok.0 ok.1 ok.2
                ok.3))
          xs tail hs)

  pub Streams-list_response :
      (text tail : Bytes) (xs : List ScanLine)
      → IsLine text
      → StopsAt is_digit (text ++ crlf)
      → Each IsScanLine xs
      → Streams
          (list_response nom)
          ((text ++ crlf) ++ block scan_text xs)
          tail
          (Response.list (record { stats = none; items = map scanned xs }))
  unfolding list_response list_stats
  Streams-list_response text tail xs h stop hs =
      Streams-bind _ _ (text ++ crlf) (block scan_text xs) tail none _
        (Streams-other nom combs (nom.map (list_stats nom) (λ stats. some stats))
          (nom.map (message_parser nom) (λ _. none)) []
          (Rejects-eq _ (list_stats nom >>= λ stats. pure (some stats)) (map-eq (list_stats nom) _)
            (Rejects-bind (list_stats nom) _ _
              (Rejects-number _ _ (crlf_stops is_digit text (block scan_text xs ++ tail) stop))))
          (Streams-last nom combs (nom.map (message_parser nom) (λ _. none)) (
            Streams-eq _ (message_parser nom >>= λ _. pure none) (map-eq (message_parser nom) _) (
              Streams-map (message_parser nom) (λ _. none)
                (Streams-message_parser nom prims combs text (block scan_text xs ++ tail) h)))))
        (Streams-scan_lines none tail xs hs)
