-- ===== src/Crdt/Record.antt =====
-- zendb-types/src/crdt/values/record.rs: the container of named fields. The names are any type with
-- a total order.
pub mod Walk
pub mod Convergence
use zendb.Prelude.{
  ℕ, Bool, true, false, Option, none, some, List, [], ◌∷◌, Ord, PartialEq, Result, ok, map_err, max,
  length,
}
use zendb.Map.{Map, lookup, insert, values}
use zendb.Map.Merge.{merge_entries}
use zendb.Crdt.Stamp.{MergeStamps}
use zendb.Crdt.Cell
use zendb.Crdt.Cell.{Cell, Op, ValueType}
use zendb.Crdt.Container.{Segment, record_segment, list_segment, walk_child, merge_child}

pub record Record (K V S : Type 0) : Type 0 where
  pub fields : Map K (Cell V S)

-- There is no operation of the record's own.
pub data RecordOp : Type 0 where

pub data RecordError (E : Type 0) : Type 0 where
  child_error : E → RecordError E

module _ {K V S : Type 0} where
  unfoldable pub len : Record K V S → ℕ
  len r = length r.fields

  unfoldable pub is_empty : Record K V S → Bool
  is_empty r = elim r.fields [ [] ↦ true | _ ∷ _ ↦ false ]

module _ {K V S : Type 0} ⦃k : Ord K⦄ where
  unfoldable pub collect : Map K (Cell V S) → List (K × Cell V S) → Map K (Cell V S)
  collect m [] = m
  collect m ((field, cell) ∷ rest) = collect (insert field cell m) rest

  unfoldable pub from_fields : List (K × Cell V S) → Record K V S
  unfolding collect
  from_fields fields = record { fields = collect [] fields }

  unfoldable pub get : Record K V S → K → Option (Cell V S)
  get r field = lookup field r.fields

  unfoldable pub child : Record K V S → Segment K S → Option (Cell V S)
  child r (record_segment field) = lookup field r.fields
  child r (list_segment id) = none

module _ {T G O E V S : Type 0} (t : ValueType T G O E V S) ⦃s : Ord S⦄ where
  unfoldable pub max_stamps : S → List (Cell V S) → S
  unfolding Cell.max_stamp
  max_stamps acc [] = acc
  max_stamps acc (c ∷ cells) = max_stamps (max acc (Cell.max_stamp t c)) cells

  unfoldable pub max_stamp : {K : Type 0} → S → Record K V S → S
  unfolding max_stamps
  max_stamp zero r = max_stamps zero (values r.fields)

module _ {T G O E V S K : Type 0} (t : ValueType T G O E V S) ⦃eq : PartialEq T⦄ ⦃k : Ord K⦄
    ⦃s : Ord S⦄ where
  unfoldable pub merge :
      Record K V S → Record K V S → MergeStamps S → Record K V S × Result (RecordError E) Bool
  unfolding merge_child
  merge self remote stamps =
      let (fields, result) =
        merge_entries (λ field local remote. merge_child t child_error local remote) false
          self.fields remote.fields in
      (record { fields = fields }, result)

module _ {T O E V S K : Type 0} (t : ValueType T (Segment K S) O E V S) ⦃eq : PartialEq T⦄
    ⦃k : Ord K⦄ ⦃s : Ord S⦄ where
  unfoldable pub apply_walk :
      S
      → Record K V S
      → Op O V S
      → MergeStamps S
      → List (Segment K S)
      → Record K V S × Result (RecordError E) Bool
  unfolding walk_child
  apply_walk zero self op stamps [] = (self, ok false)
  apply_walk zero self op stamps (list_segment id ∷ path) = (self, ok false)
  apply_walk zero self op stamps (record_segment field ∷ path) =
      let (c, r) = walk_child t zero op stamps.incoming path (lookup field self.fields) in
      (record { fields = insert field c self.fields }, map_err child_error r)
