-- ===== src/Pop2/Command.antt =====
-- async-pop2/src/command.rs. The table of keywords is a `HashMap` of the source; here it is a list, in
-- which each keyword and each command stands once.
pub mod Keywords
use getemail.Base.{
  ℕ, Bool, List, [], ◌∷◌, Bytes, Option, none, some, ◌==◌, if◌then◌else◌, codes, bytes_eq,
  to_ascii_lowercase, to_ascii_uppercase,
}

pub data Command : Type 0 where
  noop uidl top dele rset retr list stat apop auth user pass quit capa greet : Command
  base64 : Bytes → Command

-- The derived `PartialEq`: the variants, then their fields.
discriminant : Command → ℕ
discriminant noop = 0
discriminant uidl = 1
discriminant top = 2
discriminant dele = 3
discriminant rset = 4
discriminant retr = 5
discriminant list = 6
discriminant stat = 7
discriminant apop = 8
discriminant auth = 9
discriminant user = 10
discriminant pass = 11
discriminant quit = 12
discriminant capa = 13
discriminant greet = 14
discriminant (base64 s) = 15

unfoldable pub command_eq : Command → Command → Bool
unfolding discriminant
command_eq (base64 s) (base64 t) = bytes_eq s t
command_eq c d = discriminant c == discriminant d

unfoldable pub definitions : List (Bytes × Command)
definitions =
    (codes "noop", noop)
    ∷ (codes "uidl", uidl)
    ∷ (codes "top", top)
    ∷ (codes "dele", dele)
    ∷ (codes "rset", rset)
    ∷ (codes "retr", retr)
    ∷ (codes "list", list)
    ∷ (codes "stat", stat)
    ∷ (codes "apop", apop)
    ∷ (codes "auth", auth)
    ∷ (codes "user", user)
    ∷ (codes "quit", quit)
    ∷ (codes "capa", capa)
    ∷ (codes "pass", pass)
    ∷ []

-- The loop of `Display::fmt`: nothing is written for a command that has no keyword.
unfoldable pub keyword_of : Command → List (Bytes × Command) → Bytes
unfolding command_eq to_ascii_uppercase bytes_eq
keyword_of c [] = []
keyword_of c ((key, value) ∷ rest) =
    if command_eq value c then to_ascii_uppercase key else keyword_of c rest

-- `to_string`, over the encoder of base64.rs.
unfoldable pub display : (Bytes → Bytes) → Command → Bytes
unfolding keyword_of definitions
display encode (base64 other) = encode other
display encode c = keyword_of c definitions

unfoldable pub remove : Bytes → List (Bytes × Command) → Option Command
unfolding bytes_eq
remove key [] = none
remove key ((k, c) ∷ rest) = if bytes_eq k key then some c else remove key rest

-- `FromStr::from_str`, on ASCII text, where `to_lowercase` is the ASCII one.
unfoldable pub from_str : Bytes → Option Command
unfolding remove definitions to_ascii_lowercase
from_str s = remove (to_ascii_lowercase s) definitions
