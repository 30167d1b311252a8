-- ===== src/Pop2/Request/Lines.antt =====
-- Which requests of async-pop2/src/request.rs are a single line.
use getemail.Base.{
  IsLine, ◌↔◌, List, [], ◌∷◌, ◌++◌, Bytes, arith, to_ascii_uppercase, upper, bytes_eq,
}
use getemail.Pop2.Command.{
  Command, noop, uidl, top, dele, rset, retr, list, stat, apop, auth, user, pass, quit, capa, greet,
  base64, keyword_of, definitions, command_eq,
}
use getemail.Pop2.Command
use getemail.Pop2.Command.Keywords.{HasKeyword}
use getemail.Pop2.Request.{Request, display, display_args}

abbrev pub AllLines : List Bytes → Type 0
AllLines [] = Unit {0}
AllLines (arg ∷ args) = IsLine arg × AllLines args

IsLine-append : (a b : Bytes) → IsLine (a ++ b) ↔ (IsLine a × IsLine b)
IsLine-append [] b = ground arith
IsLine-append (c ∷ a) b = ground (arith, IsLine-append a b)

IsLine-display_args : (args : List Bytes) → IsLine (display_args args) ↔ AllLines args
unfolding display_args
IsLine-display_args [] = ground arith
IsLine-display_args (arg ∷ args) =
    ground (arith, IsLine-append arg (display_args args), IsLine-display_args args)

IsLine-keyword :
    (encode : Bytes → Bytes) (c : Command) → HasKeyword c → IsLine (Command.display encode c)
unfolding Command.display keyword_of definitions command_eq to_ascii_uppercase upper bytes_eq
IsLine-keyword encode c h = ground arith

-- A request of a command with a keyword is written as one line exactly if no argument has a carriage
-- return or line feed in it: the arguments are written as they are.
pub IsLine-display :
    (encode : Bytes → Bytes) (r : Request)
    → HasKeyword r.command
    → IsLine (display encode r) ↔ AllLines r.args
unfolding display
IsLine-display encode r h = ground (
  arith,
  IsLine-append (Command.display encode r.command) (display_args r.args),
  IsLine-display_args r.args,
  IsLine-keyword encode r.command h,
)
