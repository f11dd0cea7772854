-- ===== src/Crdt/Cell.antt =====
-- zendb-types/src/crdt/cell.rs, op.rs and path.rs, with the traits `Type` and `ContainerType` of
-- zendb-types/src/crdt/_traits.rs: an addressable value with the stamp of its last write. The values
-- are any type with the operations of the traits, since a value contains cells again.
pub mod Live
pub mod Register
pub mod Convergence
pub mod Scalar
use zendb.Prelude.{
  Bool, true, false, Option, none, some, List, [], ◌∷◌, if◌then◌else◌, Ord, gtb, max, PartialEq,
  Result, ok, err,
}
use zendb.Crdt.Stamp.{MergeStamps}

-- `some` is live data, `none` a tombstone.
pub record Cell (V S : Type 0) : Type 0 where
  pub value : Option V
  pub stamp : S

-- A cell-level operation; `O` are the operations of the types.
pub data Op (O V S : Type 0) : Type 0 where
  type_op : O → Op O V S
  delete : Op O V S
  upsert : V → Op O V S
  merge_op : Cell V S → Op O V S

-- The operations of `Value`, `TypeTag`, `TypeOp` and `Segment` that a cell uses.
pub record ValueType (T G O E V S : Type 0) : Type 0 where
  pub type_tag : V → T
  pub op_tag : O → T
  pub segment_tag : G → T
  pub empty_value : T → V
  pub apply : V → O → MergeStamps S → V × Result E Bool
  pub merge : V → V → MergeStamps S → V × Result E Bool
  pub max_stamp : V → S
  pub child : V → G → Option (Cell V S)
  pub apply_walk : V → Op O V S → MergeStamps S → List G → V × Result E Bool

module _ {V S : Type 0} where
  -- A cell under the default stamp.
  unfoldable pub dummy : S → Option V → Cell V S
  dummy zero value = record { value = value; stamp = zero }

  unfoldable pub is_tombstone : Cell V S → Bool
  is_tombstone c = elim c.value [ none ↦ true | some _ ↦ false ]

module _ {T : Type 0} ⦃eq : PartialEq T⦄ where
  -- `tag == Some(expected)`.
  unfoldable pub is_tag : Option T → T → Bool
  is_tag none expected = false
  is_tag (some tag) expected = eq.beq tag expected

module _ {T G O E V S : Type 0} (t : ValueType T G O E V S) where
  unfoldable pub tag_of : Option V → Option T
  tag_of none = none
  tag_of (some v) = some (t.type_tag v)

  unfoldable pub type_tag : Cell V S → Option T
  unfolding tag_of
  type_tag c = tag_of c.value

  -- `Op::type_tag`.
  unfoldable pub op_type_tag : Op O V S → Option T
  unfolding type_tag
  op_type_tag (type_op op) = some (t.op_tag op)
  op_type_tag delete = none
  op_type_tag (upsert value) = some (t.type_tag value)
  op_type_tag (merge_op cell) = type_tag cell

  unfoldable pub child : Cell V S → G → Option (Cell V S)
  child c segment = elim c.value [ none ↦ none | some v ↦ t.child v segment ]

  -- The cell that a path of segments leads to.
  unfoldable pub cell_at_path : Cell V S → List G → Option (Cell V S)
  unfolding child
  cell_at_path c [] = some c
  cell_at_path c (segment ∷ path) = elim (child c segment) [
    | none ↦ none
    | some below ↦ cell_at_path below path
  ]

module _ {T G O E V S : Type 0} (t : ValueType T G O E V S) ⦃s : Ord S⦄ where
  unfoldable pub max_of : Option V → S → S
  max_of none stamp = stamp
  max_of (some v) stamp = max stamp (t.max_stamp v)

  unfoldable pub max_stamp : Cell V S → S
  unfolding max_of
  max_stamp c = max_of c.value c.stamp

module _ {E V S : Type 0} ⦃s : Ord S⦄ where
  -- The cell behind a change of its value: a reported change moves the stamp up.
  unfoldable pub restamp : S → Cell V S → Result E Bool → Cell V S × Result E Bool
  restamp incoming c (ok true) =
      (if gtb incoming c.stamp then record c { stamp = incoming } else c, ok true)
  restamp incoming c (ok false) = (c, ok false)
  restamp incoming c (err e) = (c, err e)

  -- A write that replaces the cell, if it is later.
  unfoldable pub replace : Cell V S → Cell V S → MergeStamps S → Cell V S × Result E Bool
  replace self incoming stamps =
      if gtb stamps.incoming stamps.current then (incoming, ok true) else (self, ok false)

  -- Two live values of one type, merged: a later stamp is a change too.
  unfoldable pub merged :
      Cell V S → S → MergeStamps S → V × Result E Bool → Cell V S × Result E Bool
  merged self at stamps (v, ok changed) =
      if gtb stamps.incoming stamps.current
      then (record { value = some v; stamp = at }, ok true)
      else (record self { value = some v }, ok changed)
  merged self at stamps (v, err e) = (record self { value = some v }, err e)

module _ {T G O E V S : Type 0} (t : ValueType T G O E V S) ⦃eq : PartialEq T⦄ ⦃s : Ord S⦄ where
  -- Make the cell hold a value of the type `expected`, and report whether it does.
  unfoldable pub ensure_type : Cell V S → T → S → Cell V S × Bool
  unfolding is_tag type_tag max_stamp
  ensure_type self expected incoming =
      if is_tag (type_tag t self) expected
      then (self, true)
      else if gtb incoming (max_stamp t self)
      then (record { value = some (t.empty_value expected); stamp = incoming }, true)
      else (self, false)

  unfoldable pub merge_values :
      Cell V S → Cell V S → Option V → Option V → MergeStamps S → Cell V S × Result E Bool
  unfolding replace merged is_tag
  merge_values self incoming none w stamps = replace self incoming stamps
  merge_values self incoming (some v) none stamps = replace self incoming stamps
  merge_values self incoming (some v) (some w) stamps =
      if eq.beq (t.type_tag v) (t.type_tag w)
      then merged self incoming.stamp stamps (t.merge v w stamps)
      else replace self incoming stamps

  -- The value that the stamps choose; two live values of one type are merged.
  unfoldable pub merge : Cell V S → Cell V S → MergeStamps S → Cell V S × Result E Bool
  unfolding merge_values
  merge self incoming stamps = merge_values self incoming self.value incoming.value stamps

  -- The type's operation on the value. The cell without a value does not arise: `ensure_type` leaves
  -- it live.
  unfoldable pub apply_type : O → S → Cell V S → Option V → Cell V S × Result E Bool
  unfolding restamp
  apply_type op incoming self none = (self, ok false)
  apply_type op incoming self (some v) =
      let (w, r) = t.apply v op (record { current = self.stamp; incoming = incoming }) in
      restamp incoming (record self { value = some w }) r

  unfoldable pub apply_ensured : O → S → Cell V S × Bool → Cell V S × Result E Bool
  unfolding apply_type
  apply_ensured op incoming (self, true) = apply_type op incoming self self.value
  apply_ensured op incoming (self, false) = (self, ok false)

  unfoldable pub apply : Cell V S → Op O V S → MergeStamps S → Cell V S × Result E Bool
  unfolding apply_ensured ensure_type merge
  apply self (type_op op) stamps =
      apply_ensured op stamps.incoming (ensure_type self (t.op_tag op) stamps.incoming)
  apply self delete stamps =
      if gtb stamps.incoming self.stamp
      then (record { value = none; stamp = stamps.incoming }, ok true)
      else (self, ok false)
  apply self (upsert value) stamps =
      if gtb stamps.incoming self.stamp
      then (record { value = some value; stamp = stamps.incoming }, ok true)
      else (self, ok false)
  apply self (merge_op cell) stamps =
      merge self cell (record { current = self.stamp; incoming = cell.stamp })

  unfoldable pub walk_value : Op O V S → S → List G → Cell V S → Option V → Cell V S × Result E Bool
  walk_value op incoming path self none = (self, ok false)
  walk_value op incoming path self (some v) =
      let (w, r) = t.apply_walk v op (record { current = self.stamp; incoming = incoming }) path in
      (record self { value = some w }, r)

  unfoldable pub walk_ensured : Op O V S → S → List G → Cell V S × Bool → Cell V S × Result E Bool
  unfolding walk_value
  walk_ensured op incoming path (self, true) = walk_value op incoming path self self.value
  walk_ensured op incoming path (self, false) = (self, ok false)

  -- The operation on the cell at the end of the path.
  unfoldable pub apply_walk :
      Cell V S → Op O V S → MergeStamps S → List G → Cell V S × Result E Bool
  unfolding apply walk_ensured ensure_type
  apply_walk self op stamps [] =
      apply self op (record { current = self.stamp; incoming = stamps.incoming })
  apply_walk self op stamps (segment ∷ path) =
      walk_ensured op stamps.incoming (segment ∷ path)
        (ensure_type self (t.segment_tag segment) stamps.incoming)
