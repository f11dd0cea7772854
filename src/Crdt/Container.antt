-- ===== src/Crdt/Container.antt =====
-- What the containers of zendb-types/src/crdt/values, record.rs and list.rs, do with the cells in
-- them: the walk of an operation into a child, and the merge of two children.
pub mod Upsert
use zendb.Prelude.{
  Bool, true, false, Option, none, some, List, [], ◌∷◌, Ord, PartialEq, Result, ok, map_err, max,
}
use zendb.Map.{Map}
use zendb.Crdt.Stamp.{MergeStamps}
use zendb.Crdt.Cell
use zendb.Crdt.Cell.{Cell, Op, ValueType, dummy, ensure_type, op_type_tag}

-- A segment of a path: a field of a record, or an element of a list.
pub data Segment (K S : Type 0) : Type 0 where
  record_segment : K → Segment K S
  list_segment : S → Segment K S

module _ {T G O E V S : Type 0} (t : ValueType T G O E V S) where
  -- The type that the child has to have: the next segment's, or the operation's at the end.
  unfoldable pub child_tag : Op O V S → List G → Option T
  unfolding op_type_tag
  child_tag op [] = op_type_tag t op
  child_tag op (segment ∷ path) = some (t.segment_tag segment)

  -- The cell that is made for a missing child.
  unfoldable pub fresh : S → Option T → Cell V S
  unfolding dummy
  fresh zero none = dummy zero none
  fresh zero (some tag) = dummy zero (some (t.empty_value tag))

  -- `entry(..).or_insert_with(..)`.
  unfoldable pub entry_or : S → Option T → Option (Cell V S) → Cell V S
  unfolding fresh
  entry_or zero tag none = fresh zero tag
  entry_or zero tag (some c) = c

module _ {T G O E V S : Type 0} (t : ValueType T G O E V S) ⦃eq : PartialEq T⦄ ⦃s : Ord S⦄ where
  unfoldable pub ensure_tag : Option T → Cell V S → S → Cell V S × Bool
  unfolding ensure_type
  ensure_tag none c incoming = (c, true)
  ensure_tag (some tag) c incoming = ensure_type t c tag incoming

  unfoldable pub walk_ensured : Op O V S → S → List G → Cell V S × Bool → Cell V S × Result E Bool
  unfolding Cell.apply_walk
  walk_ensured op incoming path (c, true) =
      Cell.apply_walk t c op (record { current = c.stamp; incoming = incoming }) path
  walk_ensured op incoming path (c, false) = (c, ok false)

  -- The child cell after the walk, by what the container has there.
  unfoldable pub walk_child :
      S → Op O V S → S → List G → Option (Cell V S) → Cell V S × Result E Bool
  unfolding entry_or child_tag ensure_tag walk_ensured
  walk_child zero op incoming path found =
      walk_ensured op incoming path
        (ensure_tag (child_tag t op path) (entry_or t zero (child_tag t op path) found) incoming)

  -- Two cells of one child, merged under their own stamps.
  unfoldable pub merge_child :
      {F : Type 0} → (E → F) → Cell V S → Cell V S → Cell V S × Result F Bool
  unfolding Cell.merge
  merge_child wrap local remote =
      let (c, r) =
        Cell.merge t local remote (record { current = local.stamp; incoming = remote.stamp }) in
      (c, map_err wrap r)
