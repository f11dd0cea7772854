-- ===== src/Tests/Cells.antt =====
-- Cells and records of sample values: runs, and the theorems on them.
use zendb.Prelude.{
  ℕ, zero, suc, nat_ord, ord_eq, ◌≡◌, ◌≢◌, refl, Bool, true, false, List, [], ◌∷◌, ok, some, none,
  IsSemilattice, max, Result, arith, gtb, map_err, ap,
}
use zendb.Map.{lookup, insert}
use zendb.Map.Merge.{merge_entry, merge_entries}
use zendb.Crdt.Stamp.{EventStamp, MergeStamps, stamp_ord, cmp}
use zendb.Crdt.Cell
use zendb.Crdt.Cell.{Cell, Op, ValueType, type_op, delete, upsert, merge_op}
use zendb.Crdt.Cell.Scalar.{merge_scalar, scalar-Converges, scalar-CellConverges, later_value}
use zendb.Crdt.Cell.Convergence
use zendb.Crdt.Container.{Segment, record_segment, walk_child}
use zendb.Crdt.Container.Upsert
use zendb.Crdt.Record
use zendb.Crdt.Record.{Record}
use zendb.Crdt.Record.Walk
use zendb.Crdt.Record.Convergence as RecordConvergence
use zendb.Tests.Stamps.{at, origin, arriving}

abbrev pub Stamp : Type 0
Stamp = EventStamp ℕ

-- A scalar: a number, a flag, or a value of one of the other types.
pub data Scalar : Type 0 where
  num : ℕ → Scalar
  flag : Bool → Scalar
  other : ℕ → Scalar

abbrev pub tag : Scalar → ℕ
tag (num n) = 0
tag (flag b) = 1
tag (other n) = suc (suc n)

abbrev pub empty_scalar : ℕ → Scalar
empty_scalar zero = num 0
empty_scalar (suc zero) = flag false
empty_scalar (suc (suc n)) = other n

-- The operations of a scalar in a cell: there are none of its own, and nothing below it.
abbrev pub scalars : ValueType ℕ (Segment ℕ Stamp) (Unit {0}) (Unit {0}) Scalar Stamp
scalars = record {
  type_tag = tag;
  op_tag = λ o. 0;
  segment_tag = λ g. 2;
  empty_value = empty_scalar;
  apply = λ v o st. (v, ok false);
  merge = merge_scalar;
  max_stamp = λ v. origin;
  child = λ v g. none;
  apply_walk = λ v op st path. (v, ok false);
}

abbrev Fields : Type 0
Fields = Record ℕ Scalar Stamp

-- A value that is a scalar or a record of scalars, for the runs.
data Tree : Type 0 where
  scalar : Scalar → Tree
  fields : Fields → Tree

abbrev tree_tag : Tree → ℕ
tree_tag (scalar v) = tag v
tree_tag (fields r) = 2

abbrev empty_tree : ℕ → Tree
empty_tree zero = scalar (num 0)
empty_tree (suc zero) = scalar (flag false)
empty_tree (suc (suc n)) = fields (record { fields = [] })

abbrev merge_tree : Tree → Tree → MergeStamps Stamp → Tree × Result (Unit {0}) Bool
merge_tree (scalar v) (scalar w) st = let (x, r) = merge_scalar v w st in (scalar x, r)
merge_tree (fields a) (fields b) st =
    let (c, r) = Record.merge scalars a b st in (fields c, map_err (λ e. tt) r)
merge_tree v w st = (v, ok false)

abbrev below : Tree → Scalar
below (scalar v) = v
below (fields r) = num 0

abbrev op_below : Op (Unit {0}) Tree Stamp → Op (Unit {0}) Scalar Stamp
op_below (type_op o) = type_op o
op_below delete = delete
op_below (upsert v) = upsert (below v)
op_below (merge_op c) = delete

abbrev walk_tree :
    Tree
    → Op (Unit {0}) Tree Stamp
    → MergeStamps Stamp
    → List (Segment ℕ Stamp)
    → Tree × Result (Unit {0}) Bool
walk_tree (scalar v) op st path = (scalar v, ok false)
walk_tree (fields r) op st path =
    let (r', result) = Record.apply_walk scalars origin r (op_below op) st path in
    (fields r', map_err (λ e. tt) result)

abbrev trees : ValueType ℕ (Segment ℕ Stamp) (Unit {0}) (Unit {0}) Tree Stamp
trees = record {
  type_tag = tree_tag;
  op_tag = λ o. 0;
  segment_tag = λ g. 2;
  empty_value = empty_tree;
  apply = λ v o st. (v, ok false);
  merge = merge_tree;
  max_stamp = λ v. elim v [ scalar s ↦ origin | fields r ↦ Record.max_stamp scalars origin r ];
  child = λ v g. none;
  apply_walk = walk_tree;
}

program : Unit {0}
unfolding lookup insert merge_entry merge_entries max stamp_ord cmp Cell.merge Cell.apply
    Cell.apply_walk merge_scalar Record.merge Record.apply_walk Record.max_stamp Cell.ensure_type
    walk_child Cell.walk_ensured
program = tt

abbrev cell_of : ℕ → Tree → Cell Tree Stamp
cell_of ms v = record { value = some v; stamp = at ms 1 }

-- a record with one number, written at the given time
abbrev one_field : ℕ → ℕ → Cell Tree Stamp
one_field field ms =
    cell_of ms
      (fields (record { fields = (field, record { value = some (num ms); stamp = at ms 1 }) ∷ [] }))

abbrev join_trees : Cell Tree Stamp → Cell Tree Stamp → Cell Tree Stamp
join_trees a b = (Cell.merge trees a b (record { current = a.stamp; incoming = b.stamp })).0

-- Two records and a deletion between them: grouped in one way the older record is gone, grouped in the
-- other its field is there.
deletion : Cell Tree Stamp
deletion = record { value = none; stamp = at 5 1 }

grouped_left : join_trees (join_trees deletion (one_field 1 3)) (one_field 2 7) ≡ one_field 2 7
unfolding program deletion
grouped_left = refl

grouped_right :
    join_trees deletion (join_trees (one_field 1 3) (one_field 2 7))
    ≡ cell_of 7 (
        fields (record {
          fields =
              (1, record { value = some (num 3); stamp = at 3 1 })
              ∷ (2, record { value = some (num 7); stamp = at 7 1 })
              ∷ [];
        }))
unfolding program deletion
grouped_right = refl

-- A deletion of a record and a later update of its field: in one order everything is gone, in the
-- other the field is there.
abbrev updated : Cell Tree Stamp → Cell Tree Stamp
updated c =
    (Cell.apply_walk trees c (upsert (scalar (num 9))) (arriving 9 1) (record_segment 1 ∷ [])).0

abbrev deleted : Cell Tree Stamp → Cell Tree Stamp
deleted c = (Cell.apply_walk trees c delete (arriving 5 2) []).0

update_then_delete : deleted (updated (one_field 1 3)) ≡ record { value = none; stamp = at 5 2 }
unfolding program
update_then_delete = refl

delete_then_update :
    updated (deleted (one_field 1 3))
    ≡ cell_of 9
        (fields (record { fields = (1, record { value = some (num 9); stamp = at 9 1 }) ∷ [] }))
unfolding program
delete_then_update = refl

-- what was written under a stamp: its time
abbrev pub written : Stamp → Scalar
written s = num s.time.physical_ms

abbrev number : ℕ → Cell Scalar Stamp
number ms = record { value = some (num ms); stamp = at ms 1 }

made : (t : ℕ) → tag (empty_scalar t) ≡ t
made zero = refl
made (suc zero) = refl
made (suc (suc n)) = refl

numbers :
    Convergence.Converges {E = Unit {0}} merge_scalar later_value
      (λ a b v w. gtb b a)
      (λ a v. v ≡ written a)
numbers = scalar-Converges written

are_numbers : (a : Stamp) (v : Scalar) → v ≡ written a → tag v ≡ 0
are_numbers a v h = ap tag h

cell_merge-IsSemilattice_example :
    IsSemilattice
      (Convergence.IsLive {V = Scalar} {S = Stamp} (λ a v. v ≡ written a))
      (λ a b. (Cell.merge scalars a b (record { current = a.stamp; incoming = b.stamp })).0)
cell_merge-IsSemilattice_example =
    Convergence.cell_merge-IsSemilattice scalars numbers 0 are_numbers

ensured : (Cell.ensure_type scalars (number 3) 1 (at 5 1)).1 ≡ true
unfolding program
ensured = refl

at_ne : (arriving 5 1).incoming ≢ (arriving 7 1).incoming
at_ne h = ground (arith, ap (λ (s : Stamp). s.time.physical_ms) h)

later_than_three : gtb (at 7 1) (at 3 1) ≡ true
unfolding program
later_than_three = refl

is_number : Cell.is_tag (Cell.type_tag scalars (number 3)) 0 ≡ true
unfolding program Cell.is_tag Cell.type_tag
is_number = refl

not_flag : Cell.is_tag (Cell.type_tag scalars (number 3)) 1 ≡ false
unfolding program Cell.is_tag Cell.type_tag
not_flag = refl

past_three : gtb (at 7 1) (Cell.max_stamp scalars (number 3)) ≡ true
unfolding program Cell.max_stamp
past_three = refl

upsert-other_type_example :
    walk_child scalars origin (upsert (flag true)) (at 7 1) [] (some (number 3))
    ≡ (record { value = some (flag false); stamp = at 7 1 }, ok false)
upsert-other_type_example =
    Upsert.upsert-other_type scalars origin (number 3) (flag true) (at 7 1) not_flag past_three

abbrev row : Fields
row = record { fields = (1, number 3) ∷ (2, number 4) ∷ [] }

one_two : ◌≢◌ {A = ℕ} 1 2
one_two = omega arith

record_walk-walk_example :
    (Record.apply_walk scalars origin
      (Record.apply_walk scalars origin row
        (upsert (num 7))
        (arriving 7 1)
        (record_segment 1 ∷ [])).0
      delete
      (arriving 8 1)
      (record_segment 2 ∷ [])).0
    ≡ (Record.apply_walk scalars origin
        (Record.apply_walk scalars origin row delete (arriving 8 1) (record_segment 2 ∷ [])).0
        (upsert (num 7))
        (arriving 7 1)
        (record_segment 1 ∷ [])).0
record_walk-walk_example =
    Walk.record_walk-walk scalars origin row (upsert (num 7)) delete (arriving 7 1) (arriving 8 1) 1
      2 [] [] ((refl, tt), (tt, tt)) one_two

record_merge-IsSemilattice_example :
    IsSemilattice
      (RecordConvergence.IsValid scalars
        (λ (field : ℕ). scalar-CellConverges scalars (λ v w st same. refl) (λ s. some (written s))))
      (λ a b. (Record.merge scalars a b (arriving 9 1)).0)
record_merge-IsSemilattice_example =
    RecordConvergence.record_merge-IsSemilattice scalars
      (λ (field : ℕ). scalar-CellConverges scalars (λ v w st same. refl) (λ s. some (written s)))
      (arriving 9 1)
