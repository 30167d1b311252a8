-- ===== src/Pop2/Parser/Stats.antt =====
-- The lines of numbers: the answer to STAT, and the items of the listings of LIST and UIDL.
use getemail.Base.{ℕ, ◌≤◌, Bool, [], ◌∷◌, ◌++◌, Bytes, arith, IsLine, length}
use getemail.Base.Decimal.{is_digit}
use getemail.Pop2.Response.{Response}
use getemail.Pop2.Nom.{Nom}
use getemail.Pop2.Nom.Laws.{LawfulPrimitives, LawfulCombinators, is_space}
use getemail.Pop2.Parser.Rfc1939.{new_number, stat, stat_response}
use getemail.Pop2.Parser.Streams.{Streams, Streams-bind, Streams-map}
use getemail.Pop2.Parser.Primitives.{All, StopsAt}
use getemail.Pop2.Parser.Lines.{crlf, Streams-line, Streams-space1, Streams-digit1}

-- At least one byte, and all of one kind.
abbrev pub Some : (ℕ → Bool) → Bytes → Type 0
Some p [] = ⊥
Some p (c ∷ cs) = All p (c ∷ cs)

pub All-Some : (p : ℕ → Bool) (bs : Bytes) → Some p bs → All p bs
All-Some p [] h = absurd h
All-Some p (b ∷ bs) h = h

pub length-Some : (p : ℕ → Bool) (bs : Bytes) → Some p bs → 1 ≤ length bs
length-Some p [] h = absurd h
length-Some p (b ∷ bs) h = omega arith

-- What may stand behind the numbers: nothing, or a text that does not prolong the last one.
abbrev pub IsExtra : Bytes → Type 0
IsExtra extra = IsLine extra × StopsAt is_digit (extra ++ crlf)

pub space_stops :
    (spaces rest tail : Bytes) → Some is_space spaces → StopsAt is_digit ((spaces ++ rest) ++ tail)
space_stops [] rest tail h = absurd h
space_stops (c ∷ spaces) rest tail h = ground arith

pub digit_stops :
    (digits rest tail : Bytes) → Some is_digit digits → StopsAt is_space ((digits ++ rest) ++ tail)
digit_stops [] rest tail h = absurd h
digit_stops (d ∷ digits) rest tail h = ground arith

pub crlf_stops :
    (p : ℕ → Bool) (text tail : Bytes)
    → StopsAt p (text ++ crlf)
    → StopsAt p ((text ++ crlf) ++ tail)
crlf_stops p [] tail h = h
crlf_stops p (c ∷ text) tail h = h

unfoldable pub line_of : Bytes → Bytes → Bytes → Bytes → Bytes
line_of count spaces size extra = count ++ (spaces ++ (size ++ (extra ++ crlf)))

module _ (nom : Nom) (prims : LawfulPrimitives nom) (combs : LawfulCombinators nom) where
  pub Streams-number :
      (digits tail : Bytes)
      → Some is_digit digits
      → StopsAt is_digit tail
      → Streams nom.digit1 digits tail digits
  Streams-number [] tail h stop = absurd h
  Streams-number (d ∷ digits) tail h stop = Streams-digit1 nom prims combs d digits tail h stop

  pub Streams-spaces :
      (spaces tail : Bytes)
      → Some is_space spaces
      → StopsAt is_space tail
      → Streams nom.space1 spaces tail spaces
  Streams-spaces [] tail h stop = absurd h
  Streams-spaces (c ∷ spaces) tail h stop = Streams-space1 nom prims combs c spaces tail h stop

  pub Streams-stat :
      (count spaces size extra tail : Bytes)
      → Some is_digit count
      → Some is_space spaces
      → Some is_digit size
      → IsExtra extra
      → Streams
          (stat nom)
          (line_of count spaces size extra)
          tail
          (record { message_count = new_number count; size = new_number size })
  unfolding stat line_of
  Streams-stat count spaces size extra tail c sp n x =
      Streams-bind nom.digit1 _ count (spaces ++ (size ++ (extra ++ crlf))) tail count _
        (Streams-number count ((spaces ++ (size ++ (extra ++ crlf))) ++ tail) c
          (space_stops spaces _ tail sp))
        (Streams-bind nom.space1 _ spaces (size ++ (extra ++ crlf)) tail spaces _
          (Streams-spaces spaces ((size ++ (extra ++ crlf)) ++ tail) sp (digit_stops size _ tail n))
          (Streams-bind nom.digit1 _ size (extra ++ crlf) tail size _
            (Streams-number size ((extra ++ crlf) ++ tail) n (crlf_stops is_digit extra tail x.1))
            (Streams-line nom prims combs
              (λ _. record { message_count = new_number count; size = new_number size }) extra tail
              x.0)))

  pub Streams-stat_response :
      (count spaces size extra tail : Bytes)
      → Some is_digit count
      → Some is_space spaces
      → Some is_digit size
      → IsExtra extra
      → Streams
          (stat_response nom)
          (line_of count spaces size extra)
          tail
          (Response.stat (record { message_count = new_number count; size = new_number size }))
  unfolding stat_response
  Streams-stat_response count spaces size extra tail c sp n x =
      Streams-map (stat nom) Response.stat (Streams-stat count spaces size extra tail c sp n x)
