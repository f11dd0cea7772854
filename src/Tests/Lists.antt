-- ===== src/Tests/Lists.antt =====
-- Lists of sample scalars: runs, and the theorems on them.
use zendb.Prelude.{
  nat_ord, cmp_option, if◌then◌else◌, ord_eq, option_ord, ◌≡◌, ◌↔◌, refl, true, false, Option, List,
  [], ◌∷◌, some, none, IsSemilattice, max, gtb, eqb, not, ◌&&◌,
}
use zendb.Map.{lookup, insert, IsSorted}
use zendb.Map.Merge.{merge_entry, merge_entries}
use zendb.Crdt.Stamp.{stamp_ord, cmp}
use zendb.Crdt.Cell.{Cell, merge}
use zendb.Crdt.Cell.Scalar.{merge_scalar, scalar-CellConverges}
use zendb.Crdt.Sequence
use zendb.Crdt.Sequence.Visited.{has, Distinct}
use zendb.Crdt.Sequence.Outcome.{is_visible}
use zendb.Crdt.Sequence.Visible.{IsPlaced, visible_ids_lem}
use zendb.Crdt.List
use zendb.Crdt.List.{
  ListValue, ListEntry, ListOp, insert_op, delete_op, head, after_id, anchor, is_live, visible_ids,
}
use zendb.Crdt.List.Convergence
use zendb.Crdt.List.Insertion
use zendb.Crdt.List.Deletion
use zendb.Tests.Stamps.{at, origin, arriving}
use zendb.Tests.Cells.{Stamp, Scalar, num, scalars, written}

program : Unit {0}
unfolding lookup insert merge_entry merge_entries max stamp_ord cmp cmp_option merge merge_scalar
    option_ord List.apply List.merge List.visible_ids List.cells has List.cell_at
program = tt

abbrev element : ListEntry Scalar Stamp → Cell Scalar Stamp
element e = e.cell

-- the element 3 at the head, and 4 after it
abbrev numbers : ListValue Scalar Stamp
numbers = record {
  entries =
      (at 3 1, record { position = head; cell = record { value = some (num 3); stamp = at 3 1 } })
      ∷ (
        at 4 1,
        record {
          position = after_id (at 3 1);
          cell = record { value = some (num 4); stamp = at 4 1 };
        },
      )
      ∷ [];
}

numbers-IsSorted : IsSorted numbers.entries
unfolding program
numbers-IsSorted = ((refl, tt), (tt, tt))

visible : visible_ids numbers ≡ some (at 3 1 ∷ at 4 1 ∷ [])
unfolding program
visible = refl

-- two elements after the first: the later one comes first
abbrev three : ListValue Scalar Stamp
three = (List.apply scalars origin numbers (insert_op (some (at 3 1)) (num 7)) (arriving 7 1)).0

visible_three : visible_ids three ≡ some (at 3 1 ∷ at 7 1 ∷ at 4 1 ∷ [])
unfolding program
visible_three = refl

abbrev without : ListValue Scalar Stamp
without = (List.apply scalars origin numbers (delete_op (at 3 1)) (arriving 7 1)).0

-- what was inserted after a deleted element stays
visible_without : visible_ids without ≡ some (at 4 1 ∷ [])
unfolding program
visible_without = refl

first_cell : List.cell_at numbers 0 ≡ some (record { value = some (num 3); stamp = at 3 1 })
unfolding program
first_cell = refl

visible_ids_lem_example :
    (ids : List Stamp) × (Sequence.visible_ids anchor is_live numbers.entries ≡ some ids)
    × Distinct ids
    × ((q : Stamp)
        → (has q ids ≡ true)
          ↔ (IsPlaced anchor numbers.entries q × (is_visible is_live numbers.entries q ≡ true)))
visible_ids_lem_example = visible_ids_lem anchor is_live numbers.entries numbers-IsSorted

not_origin : eqb (at 7 1) origin ≡ false
unfolding program
not_origin = refl

is_new : lookup (at 7 1) numbers.entries ≡ none
unfolding program
is_new = refl

is_there : has (at 3 1) (at 3 1 ∷ at 4 1 ∷ []) ≡ true
unfolding program
is_there = refl

visible_ids-insert_example :
    (has (at 7 1) (at 3 1 ∷ at 7 1 ∷ at 4 1 ∷ []) ≡ true)
    × ((q : Stamp)
        → has q (at 3 1 ∷ at 4 1 ∷ []) ≡ true
        → has q (at 3 1 ∷ at 7 1 ∷ at 4 1 ∷ []) ≡ true)
visible_ids-insert_example =
    Insertion.visible_ids-insert scalars origin numbers (some (at 3 1)) (num 7) (arriving 7 1)
      (at 3 1 ∷ at 4 1 ∷ []) (at 3 1 ∷ at 7 1 ∷ at 4 1 ∷ []) numbers-IsSorted not_origin is_new
      visible is_there visible_three

three_not_origin : eqb (at 3 1) origin ≡ false
unfolding program
three_not_origin = refl

found_three :
    lookup (at 3 1) numbers.entries
    ≡ some (record { position = head; cell = record { value = some (num 3); stamp = at 3 1 } })
unfolding program
found_three = refl

is_later : gtb (at 7 1) (at 3 1) ≡ true
unfolding program
is_later = refl

visible_ids-delete_example :
    has (at 3 1) (at 4 1 ∷ [])
    ≡ (has (at 3 1) (at 3 1 ∷ at 4 1 ∷ []) && not (eqb (at 3 1) (at 3 1)))
visible_ids-delete_example =
    Deletion.visible_ids-delete scalars origin numbers (at 3 1)
      (record { position = head; cell = record { value = some (num 3); stamp = at 3 1 } })
      (arriving 7 1) (at 3 1 ∷ at 4 1 ∷ []) (at 4 1 ∷ []) numbers-IsSorted three_not_origin
      found_three is_later visible visible_without (at 3 1)

-- where each element was inserted
abbrev placed : Stamp → Option Stamp
placed id = if eqb id (at 4 1) then some (at 3 1) else none

list_merge-IsSemilattice_example :
    IsSemilattice
      (Convergence.IsValid scalars
        (λ (id : Stamp). scalar-CellConverges scalars (λ v w st same. refl) (λ s. some (written s)))
        placed)
      (λ a b. (List.merge scalars a b (arriving 9 1)).0)
list_merge-IsSemilattice_example =
    Convergence.list_merge-IsSemilattice scalars
      (λ (id : Stamp). scalar-CellConverges scalars (λ v w st same. refl) (λ s. some (written s)))
      placed (arriving 9 1)
