-- ===== src/Pop2/Parser/Headings.antt =====
-- The heading of a scan listing that tells the number of messages and their size, as `2 messages (320 octets)`.
use getemail.Base.{
  ℕ, ◌≡◌, ◌≢◌, refl, inl, inr, Bool, List, [], ◌∷◌, ◌++◌, Bytes, none, some, arith, append_assoc,
  map, ◌==◌,
}
use getemail.Base.Decimal.{is_digit}
use getemail.Pop2.Response.{Stat, Response}
use getemail.Pop2.Env.{size}
use getemail.Pop2.Nom.{Nom, ◌>>=◌, pure}
use getemail.Pop2.Nom.Laws.{LawfulPrimitives, LawfulCombinators, is_space, one, taken_while}
use getemail.Pop2.Parser.Core.{eol, message_parser}
use getemail.Pop2.Parser.Rfc1939.{new_number, is_alphanumeric, stat, list_stats, list_response}
use getemail.Pop2.Parser.Streams.{
  Cut, Streams, Rejects, Streams-eq, Streams-bind, Streams-map, Streams-first, Rejects-then,
  length_pos,
}
use getemail.Pop2.Parser.Primitives.{All, StopsAt, Streams-taken_while, head_eq, tail_eq}
use getemail.Pop2.Parser.Lines.{crlf}
use getemail.Pop2.Parser.Stats.{Some, All-Some, space_stops, Streams-number, Streams-spaces}
use getemail.Pop2.Parser.Endings.{Streams-eol}
use getemail.Pop2.Parser.Listings.{
  ScanLine, IsScanLine, scan_text, scanned, block, Each, Streams-scan_lines, Rejects-number,
}

pub record Heading : Type 0 where
  pub count : Bytes
  pub gap : Bytes
  pub word : Bytes
  pub space : Bytes
  pub octets : Bytes
  pub inner_space : Bytes
  pub unit : Bytes

-- The word is no number.
abbrev pub IsWord : Bytes → Type 0
IsWord word = Some is_alphanumeric word × StopsAt is_digit (word ++ crlf)

abbrev pub IsHeading : Heading → Type 0
IsHeading h =
    Some is_digit h.count
    × Some is_space h.gap
    × IsWord h.word
    × Some is_space h.space
    × Some is_digit h.octets
    × Some is_space h.inner_space
    × All is_alphanumeric h.unit

-- What stands between the parentheses, and all of the line.
unfoldable pub total : Heading → Bytes
total h = h.octets ++ (h.inner_space ++ h.unit)

unfoldable pub heading_text : Heading → Bytes
unfolding total
heading_text h =
    h.count ++ (h.gap ++ (h.word ++ (h.space ++ ((b'(' ∷ (total h ++ b')' ∷ [])) ++ crlf))))

abbrev pub announced : Heading → Stat
announced h = record { message_count = new_number h.count; size = new_number h.octets }

word_stops : (word rest : Bytes) → IsWord word → StopsAt is_space (word ++ rest)
word_stops [] rest h = absurd h.0
word_stops (c ∷ word) rest h = ground (arith, h.0.0)

word_no_digit : (word rest : Bytes) → IsWord word → StopsAt is_digit (word ++ rest)
word_no_digit [] rest h = absurd h.0
word_no_digit (c ∷ word) rest h = h.1

unit_stops : (unit rest : Bytes) → All is_alphanumeric unit → StopsAt is_space (unit ++ b')' ∷ rest)
unit_stops [] rest h = refl
unit_stops (c ∷ unit) rest h = ground (arith, h.0)

space_ends : (spaces rest : Bytes) → Some is_space spaces → StopsAt is_alphanumeric (spaces ++ rest)
space_ends [] rest h = absurd h
space_ends (c ∷ spaces) rest h = ground (arith, h.0)

gap_stops : (spaces rest : Bytes) → Some is_space spaces → StopsAt is_digit (spaces ++ rest)
gap_stops [] rest h = absurd h
gap_stops (c ∷ spaces) rest h = ground (arith, h.0)

module _ (nom : Nom) (prims : LawfulPrimitives nom) (combs : LawfulCombinators nom) where
  open prims use {char-eq, take_while-eq}
  open combs use {delimited-eq, tuple-eq, map-eq}

  Streams-char : (c : ℕ) (tail : Bytes) → Streams (nom.char c) (c ∷ []) tail c
  Streams-char c tail =
      Streams-eq (nom.char c) (one (λ d. d == c)) (char-eq c)
        (record { whole = ground arith; cut = λ part more e ne. cut part more e ne })
    where
      cut :
          (part more : Bytes)
          → c ∷ tail ≡ part ++ more
          → more ≢ []
          → Cut (one (λ d. d == c)) tail c part more
      cut [] more e ne = inl (size 1, refl, inl (omega (arith, length_pos more ne)))
      cut (x ∷ part) more e ne = inr (part, tail_eq e, ground (arith, head_eq e))

  Streams-take_while :
      (p : ℕ → Bool) (text tail : Bytes)
      → All p text
      → StopsAt p tail
      → Streams (nom.take_while p) text tail text
  Streams-take_while p text tail h stop =
      Streams-eq (nom.take_while p) (taken_while p) (take_while-eq p)
        (Streams-taken_while p text tail h stop)

  Streams-total :
      (h : Heading) (tail : Bytes)
      → Some is_digit h.octets
      → Some is_space h.inner_space
      → All is_alphanumeric h.unit
      → Streams
          (nom.tuple nom.digit1 nom.space1 (nom.take_while is_alphanumeric))
          (total h)
          (b')' ∷ tail)
          (h.octets, h.inner_space, h.unit)
  unfolding total
  Streams-total h tail n sp u =
      Streams-eq _ _ (tuple-eq nom.digit1 nom.space1 (nom.take_while is_alphanumeric)) (
        Streams-bind nom.digit1 _ h.octets (h.inner_space ++ h.unit) (b')' ∷ tail) h.octets _
          (Streams-number nom prims combs h.octets _ n
            (space_stops h.inner_space h.unit (b')' ∷ tail) sp))
          (Streams-bind nom.space1 _ h.inner_space h.unit (b')' ∷ tail) h.inner_space _
            (Streams-spaces nom prims combs h.inner_space _ sp (unit_stops h.unit tail u))
            (Streams-map (nom.take_while is_alphanumeric) (λ c. (h.octets, h.inner_space, c))
              (Streams-take_while is_alphanumeric h.unit (b')' ∷ tail) u refl))))

  Streams-parentheses :
      (h : Heading) (tail : Bytes)
      → Some is_digit h.octets
      → Some is_space h.inner_space
      → All is_alphanumeric h.unit
      → Streams
          (nom.delimited
            (nom.char b'(')
            (nom.tuple nom.digit1 nom.space1 (nom.take_while is_alphanumeric))
            (nom.char b')'))
          (b'(' ∷ (total h ++ b')' ∷ []))
          tail
          (h.octets, h.inner_space, h.unit)
  Streams-parentheses h tail n sp u =
      Streams-eq _ _ (delimited-eq (nom.char b'(') _ (nom.char b')')) (
        Streams-bind (nom.char b'(') _ (b'(' ∷ []) (total h ++ b')' ∷ []) tail b'(' _
          (Streams-char b'(' ((total h ++ b')' ∷ []) ++ tail))
          (Streams-bind (nom.tuple nom.digit1 nom.space1 (nom.take_while is_alphanumeric)) _
            (total h) (b')' ∷ []) tail (h.octets, h.inner_space, h.unit) _
            (Streams-total h tail n sp u)
            (Streams-map (nom.char b')') (λ _. (h.octets, h.inner_space, h.unit))
              (Streams-char b')' tail))))

  -- The numbers of the heading are not those of a single item.
  pub Rejects-stat :
      (h : Heading) (tail : Bytes) → IsHeading h → Rejects (stat nom) (heading_text h ++ tail)
  unfolding stat heading_text
  Rejects-stat h tail ok =
      let end = (b'(' ∷ (total h ++ b')' ∷ [])) ++ crlf in
      rw
        (
          append_assoc h.count (h.gap ++ (h.word ++ (h.space ++ end))) tail,
          append_assoc h.gap (h.word ++ (h.space ++ end)) tail,
          append_assoc h.word (h.space ++ end) tail,
        )
        (Rejects-then nom.digit1 _ h.count _ h.count
          (Streams-number nom prims combs h.count _ ok.0 (gap_stops h.gap _ ok.1))
          (Rejects-then nom.space1 _ h.gap _ h.gap
            (Streams-spaces nom prims combs h.gap _ ok.1 (word_stops h.word _ ok.2))
            (Rejects-number nom prims combs _ _ (word_no_digit h.word _ ok.2))))

  Streams-list_stats :
      (h : Heading) (tail : Bytes)
      → IsHeading h
      → Streams (list_stats nom) (heading_text h) tail (announced h)
  unfolding list_stats heading_text
  Streams-list_stats h tail ok =
      let end = (b'(' ∷ (total h ++ b')' ∷ [])) ++ crlf in
      Streams-bind nom.digit1 _ h.count (h.gap ++ (h.word ++ (h.space ++ end))) tail h.count
        (announced h)
        (Streams-number nom prims combs h.count _ ok.0 (space_stops h.gap _ tail ok.1))
        (Streams-bind nom.space1 _ h.gap (h.word ++ (h.space ++ end)) tail h.gap (announced h)
          (Streams-spaces nom prims combs h.gap _ ok.1
            (rw (append_assoc h.word (h.space ++ end) tail) (word_stops h.word _ ok.2)))
          (Streams-bind (nom.take_while is_alphanumeric) _ h.word (h.space ++ end) tail h.word
            (announced h)
            (Streams-take_while is_alphanumeric h.word _ (All-Some is_alphanumeric h.word ok.2.0)
              (rw (append_assoc h.space end tail) (space_ends h.space _ ok.3)))
            (Streams-bind nom.space1 _ h.space end tail h.space (announced h)
              (Streams-spaces nom prims combs h.space _ ok.3 refl)
              (Streams-bind _ _ (b'(' ∷ (total h ++ b')' ∷ [])) crlf tail
                (h.octets, h.inner_space, h.unit) (announced h)
                (Streams-parentheses h (crlf ++ tail) ok.4 ok.5 ok.6)
                (Streams-map (eol nom) (λ _. announced h) (Streams-eol nom prims combs tail))))))

  pub Streams-list_heading :
      (h : Heading) (tail : Bytes) (xs : List ScanLine)
      → IsHeading h
      → Each IsScanLine xs
      → Streams
          (list_response nom)
          (heading_text h ++ block scan_text xs)
          tail
          (Response.list (record { stats = some (announced h); items = map scanned xs }))
  unfolding list_response
  Streams-list_heading h tail xs ok hs =
      Streams-bind _ _ (heading_text h) (block scan_text xs) tail (some (announced h)) _
        (Streams-first nom combs (nom.map (list_stats nom) (λ stats. some stats))
          (nom.map (message_parser nom) (λ _. none)) []
          (Streams-eq _ (list_stats nom >>= λ stats. pure (some stats)) (map-eq (list_stats nom) _)
            (Streams-map (list_stats nom) (λ stats. some stats)
              (Streams-list_stats h (block scan_text xs ++ tail) ok))))
        (Streams-scan_lines nom prims combs (some (announced h)) tail xs hs)
