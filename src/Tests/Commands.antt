-- ===== src/Tests/Commands.antt =====
-- Commands and requests at concrete texts.
use getemail.Base.{
  IsLine, ◌≡◌, refl, ◌↔◌, [], ◌∷◌, codes, some, to_ascii_lowercase, to_ascii_uppercase, lower,
  upper, bytes_eq,
}
use getemail.Pop2.Command.{from_str, noop, user, display, keyword_of, definitions, command_eq}
use getemail.Pop2.Command.Keywords.{from_str-display}
use getemail.Pop2.Request
use getemail.Pop2.Request.{Request}
use getemail.Pop2.Request.Lines.{AllLines, IsLine-display}

from_str-display_example : from_str (codes "NoOp") ≡ some noop
unfolding to_ascii_lowercase to_ascii_uppercase lower upper display keyword_of definitions
    command_eq bytes_eq
from_str-display_example = from_str-display (λ bs. bs) noop (codes "NoOp") tt refl

abbrev injected : Request
injected = record { command = user; args = codes "me\nQUIT" ∷ [] }

IsLine-display_example :
    IsLine (Request.display (λ bs. bs) injected) ↔ AllLines (codes "me\nQUIT" ∷ [])
IsLine-display_example = IsLine-display (λ bs. bs) injected tt
