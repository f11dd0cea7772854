-- ===== src/Tests/Texts.antt =====
-- Texts: runs, and the theorems on them.
use zendb.Prelude.{
  ℕ, nat_ord, cmp_option, cmp_pair, pair_ord, option_ord, ◌≡◌, refl, Option, [], ◌∷◌, ok, err, some,
  none, IsSemilattice, max,
}
use zendb.Map.{lookup, insert}
use zendb.Map.Merge.{merge_entry, merge_entries}
use zendb.Crdt.Stamp.{EventStamp, stamp_ord, cmp}
use zendb.Crdt.Text.Defs.{
  Text, TextId, TextContent, insert_op, delete_op, format_op, insert_conflict,
}
use zendb.Crdt.Text.Apply.{apply}
use zendb.Crdt.Text.Merge.{merge}
use zendb.Crdt.Text.Query.{string, format_at, format, visible_ids}
use zendb.Crdt.Text.Convergence
use zendb.Tests.Stamps.{at, origin, arriving}

program : Unit {0}
unfolding lookup insert merge_entry merge_entries max stamp_ord cmp cmp_option cmp_pair option_ord
    pair_ord apply merge string format_at format visible_ids
program = tt

abbrev Stamp : Type 0
Stamp = EventStamp ℕ

abbrev empty : Text ℕ ℕ Stamp
empty = record { entries = [] }

abbrev hello : Text ℕ ℕ Stamp
hello = (apply origin empty (insert_op none (b'a' ∷ b'c' ∷ [])) (arriving 3 1)).0

read_back : string hello ≡ some (b'a' ∷ b'c' ∷ [])
unfolding program
read_back = refl

-- an insertion in the middle
abbrev longer : Text ℕ ℕ Stamp
longer = (apply origin hello (insert_op (some (at 3 1, 0)) (b'b' ∷ [])) (arriving 5 2)).0

read_longer : string longer ≡ some (b'a' ∷ b'b' ∷ b'c' ∷ [])
unfolding program
read_longer = refl

shorter :
    string (apply origin longer (delete_op ((at 3 1, 0) ∷ [])) (arriving 7 1)).0
    ≡ some (b'b' ∷ b'c' ∷ [])
unfolding program
shorter = refl

-- another text under the same stamp
conflicting :
    (apply origin hello (insert_op none (b'a' ∷ b'd' ∷ [])) (arriving 3 1)).1
    ≡ err (insert_conflict (at 3 1, 1))
unfolding program
conflicting = refl

formatted :
    format hello (some (at 3 1, 1)) none 8 (some 1)
    ≡ some (ok (format_op ((at 3 1, 1) ∷ []) 8 (some 1)))
unfolding program
formatted = refl

shown :
    format_at (apply origin hello (format_op ((at 3 1, 1) ∷ []) 8 (some 1)) (arriving 8 1)).0 1
    ≡ some ((8, 1) ∷ [])
unfolding program
shown = refl

-- what was written under an identifier, and what an operation formatted
abbrev written : TextId Stamp → TextContent Stamp
written id = record { after = none; character = b'a' }

abbrev formats : TextId Stamp → ℕ → Stamp → Option ℕ
formats id key stamp = some 1

text_merge-IsSemilattice_example :
    IsSemilattice (Convergence.IsValid written formats) (λ a b. (merge a b (arriving 9 1)).0)
text_merge-IsSemilattice_example =
    Convergence.text_merge-IsSemilattice written formats (arriving 9 1)
