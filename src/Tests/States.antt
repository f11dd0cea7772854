-- ===== src/Tests/States.antt =====
-- The state over its backends, and the reads of an unordered one: runs, and the theorems on them.
use zendb.Prelude.{ℕ, nat_ord, ◌≡◌, refl, [], ◌∷◌, List, some, ok}
use zendb.Map.{lookup, insert, remove}
use zendb.Storage.KeyDir
use zendb.Storage.KeyDir.{KeyDir}
use zendb.Storage.KeyDir.Implementation.{keydir_backend}
use zendb.Storage.Backend.{Backend, bulk_put}
use zendb.Storage.State
use zendb.Storage.State.{State}
use zendb.Storage.State.Ends
use zendb.Tests.KeyDirs.{key_size, value_size, over, two_keys}

program : Unit {0}
unfolding lookup insert remove keydir_backend bulk_put State.get State.put State.delete
    State.state_backend KeyDir.put KeyDir.delete KeyDir.get KeyDir.create State.first State.last
    State.range State.range_rev State.sort_rows State.sort_rows_rev
program = tt

abbrev key_dirs : Backend (KeyDir ℕ ℕ) ℕ ℕ ℕ
key_dirs = keydir_backend key_size value_size over ℕ

put_unordered :
    (bulk_put
      (State.state_backend key_dirs key_dirs key_dirs)
      (State.unordered two_keys)
      ((3, 30) ∷ [])).1
    ≡ ok tt
unfolding program
put_unordered = refl

-- as a hash map may give them
abbrev rows : List (ℕ × ℕ)
rows = (4, 40) ∷ (1, 10) ∷ (3, 30) ∷ []

from_two : State.range 2 4 rows ≡ (3, 30) ∷ []
unfolding program
from_two = refl

backwards : State.range_rev 1 4 rows ≡ (3, 30) ∷ (1, 10) ∷ []
unfolding program
backwards = refl

last_row : State.last rows ≡ some (4, 40)
unfolding program
last_row = refl

first-sort_rows_example :
    (State.first rows ≡ Ends.head (State.sort_rows rows))
    × (State.last rows ≡ Ends.head (State.sort_rows_rev rows))
first-sort_rows_example = Ends.first-sort_rows rows
