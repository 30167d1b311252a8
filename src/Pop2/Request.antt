-- ===== src/Pop2/Request.antt =====
-- async-pop2/src/request.rs
pub mod Lines
use getemail.Base.{List, [], ◌∷◌, ◌++◌, Bytes, Option}
use mathlib.Core.Option
use getemail.Pop2.Command.{Command, display as display_command, from_str as command_from_str}

pub record Request : Type 0 where
  pub command : Command
  pub args : List Bytes

-- `Request::new`, over the displayed arguments, and `From<Command>`.
unfoldable pub new : Command → List Bytes → Request
new command args = record { command = command; args = args }

unfoldable pub from_command : Command → Request
unfolding new
from_command command = new command []

-- The argument is displayed by the caller.
unfoldable pub add_arg : Request → Bytes → Request
add_arg r arg = record r { args = r.args ++ arg ∷ [] }

unfoldable pub display_args : List Bytes → Bytes
display_args [] = []
display_args (arg ∷ args) = b' ' ∷ (arg ++ display_args args)

unfoldable pub display : (Bytes → Bytes) → Request → Bytes
unfolding display_args
display encode r = display_command encode r.command ++ display_args r.args

unfoldable pub from_str : Bytes → Option Request
unfolding from_command
from_str s = Option.map from_command (command_from_str s)
