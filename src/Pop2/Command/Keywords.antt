-- ===== src/Pop2/Command/Keywords.antt =====
-- Printing and reading the keywords of async-pop2/src/command.rs.
use getemail.Base.{
  arith, ◌≡◌, ◌∙◌, ap, Bytes, some, to_ascii_lowercase, to_ascii_uppercase, lower, upper, bytes_eq,
}
use getemail.Pop2.Command.{
  Command, greet, base64, display, keyword_of, definitions, command_eq, from_str, remove,
}

-- The commands that stand in the table.
abbrev pub HasKeyword : Command → Type 0
HasKeyword greet = ⊥
HasKeyword (base64 s) = ⊥
HasKeyword _ = Unit {0}

remove-display :
    (encode : Bytes → Bytes) (c : Command)
    → HasKeyword c
    → remove (to_ascii_lowercase (display encode c)) definitions ≡ some c
unfolding remove to_ascii_lowercase to_ascii_uppercase lower upper display keyword_of definitions
    command_eq bytes_eq
remove-display encode greet h = elim h [ ]
remove-display encode (base64 _) h = elim h [ ]
remove-display encode c h = ground arith

-- A text that is the printed keyword of a command, in upper, lower or mixed case, is read as this
-- command.
pub from_str-display :
    (encode : Bytes → Bytes) (c : Command) (s : Bytes)
    → HasKeyword c
    → to_ascii_lowercase s ≡ to_ascii_lowercase (display encode c)
    → from_str s ≡ some c
unfolding from_str
from_str-display encode c s h same =
    ap (λ key. remove key definitions) same ∙ remove-display encode c h
