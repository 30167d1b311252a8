-- ===== src/Base/Utf8.antt =====
-- `str::from_utf8` of the standard library, as a test: the bytes that may follow each first byte.
use Prim.Native.Nat.{ℕ}
use mathlib.Core.Bool.{Bool, true, false, ◌&&◌}
use mathlib.Core.List.{List, [], ◌∷◌, ◌++◌}
use mathlib.Core.Option.{Option, none, some}
use getemail.Base.Tests.{ltb, leb, if◌then◌else◌, ◌==◌}
use getemail.Base.Text.{Bytes}

-- The ranges of the bytes behind a first byte.
unfoldable pub follow : ℕ → Option (List (ℕ × ℕ))
follow c =
    if ltb c 0x80
    then some []
    else if ltb c 0xc2
    then none
    else if ltb c 0xe0
    then some ((0x80, 0xbf) ∷ [])
    else if c == 0xe0
    then some ((0xa0, 0xbf) ∷ (0x80, 0xbf) ∷ [])
    else if c == 0xed
    then some ((0x80, 0x9f) ∷ (0x80, 0xbf) ∷ [])
    else if ltb c 0xf0
    then some ((0x80, 0xbf) ∷ (0x80, 0xbf) ∷ [])
    else if c == 0xf0
    then some ((0x90, 0xbf) ∷ (0x80, 0xbf) ∷ (0x80, 0xbf) ∷ [])
    else if ltb c 0xf4
    then some ((0x80, 0xbf) ∷ (0x80, 0xbf) ∷ (0x80, 0xbf) ∷ [])
    else if c == 0xf4
    then some ((0x80, 0x8f) ∷ (0x80, 0xbf) ∷ (0x80, 0xbf) ∷ [])
    else none

-- The bytes that are awaited, and the text behind them.
unfoldable pub utf8_from : List (ℕ × ℕ) → Bytes → Bool
unfolding follow
utf8_from [] [] = true
utf8_from (range ∷ ranges) [] = false
utf8_from ((low, high) ∷ ranges) (c ∷ cs) = leb low c && leb c high && utf8_from ranges cs
utf8_from [] (c ∷ cs) = elim (follow c) [ none ↦ false | some ranges ↦ utf8_from ranges cs ]

unfoldable pub is_utf8 : Bytes → Bool
unfolding utf8_from
is_utf8 = utf8_from []

-- `String::from_utf8_lossy`: U+FFFD for each longest part of a character that does not go on. Between two
-- characters `taken` is the last one, within a character what has been seen of it.
abbrev pub replacement : Bytes
replacement = 0xef ∷ 0xbf ∷ 0xbd ∷ []

unfoldable pub lossy_from : List (ℕ × ℕ) → Bytes → Bytes → Bytes
unfolding follow
lossy_from [] taken [] = taken
lossy_from (range ∷ ranges) taken [] = replacement
lossy_from [] taken (c ∷ cs) = taken ++ elim (follow c) [
  | none ↦ replacement ++ lossy_from [] [] cs
  | some ranges ↦ lossy_from ranges (c ∷ []) cs
]
lossy_from ((low, high) ∷ ranges) taken (c ∷ cs) = elim (leb low c && leb c high) [
  | true ↦ lossy_from ranges (taken ++ c ∷ []) cs
  | false ↦ replacement ++ elim (follow c) [
    | none ↦ replacement ++ lossy_from [] [] cs
    | some ranges ↦ lossy_from ranges (c ∷ []) cs
  ]
]

unfoldable pub from_utf8_lossy : Bytes → Bytes
unfolding lossy_from
from_utf8_lossy = lossy_from [] []
