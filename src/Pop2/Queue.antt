-- ===== src/Pop2/Queue.antt =====
-- `CommandQueue` of async-pop2/src/stream.rs: the commands whose responses are still to come.
use getemail.Base.{List, [], ◌∷◌, ◌++◌, Option, head?}
use getemail.Base.Exec.{ok, panic, Exec}
use getemail.Pop2.Command.{Command}

pub record CommandQueue : Type 0 where
  pub list : List Command

unfoldable pub new : CommandQueue
new = record { list = [] }

unfoldable pub add : CommandQueue → Command → CommandQueue
add q command = record { list = q.list ++ command ∷ [] }

unfoldable pub current : CommandQueue → Option Command
current q = head? q.list

-- `Vec::remove(0)`, which panics on an empty vector.
unfoldable pub remove_first : {E : Type 0} → List Command → Exec E CommandQueue Unit
remove_first [] q = (panic, q)
remove_first (c ∷ rest) q = (ok tt, record { list = rest })

unfoldable pub mark_current_as_done : {E : Type 0} → Exec E CommandQueue Unit
unfolding remove_first
mark_current_as_done q = remove_first q.list q
