-- ===== src/Crdt/List.antt =====
-- zendb-types/src/crdt/values/list.rs: an ordered container, whose elements are identified by the stamp
-- of their insertion and anchored to the element that they were inserted after.
pub mod Position
pub mod Convergence
pub mod Order
pub mod Insertion
pub mod Deletion
use zendb.Prelude.{
  ℕ, Bool, true, false, ◌||◌, not, Option, none, some, List, [], ◌∷◌, if◌then◌else◌, Ord, eqb, max,
  PartialEq, Result, ok, err, map_err, and_then, get_elem?,
}
use zendb.Map.{Map, lookup, insert}
use zendb.Map.Merge.{merge_entries}
use zendb.Crdt.Stamp.{MergeStamps}
use zendb.Crdt.Sequence
use zendb.Crdt.Cell
use zendb.Crdt.Cell.{Cell, Op, ValueType, is_tombstone}
use zendb.Crdt.Container.{Segment, record_segment, list_segment, walk_child, merge_child}

pub data ListPosition (S : Type 0) : Type 0 where
  unknown : ListPosition S
  head : ListPosition S
  after_id : S → ListPosition S

pub record ListEntry (V S : Type 0) : Type 0 where
  pub position : ListPosition S
  pub cell : Cell V S

-- The `List` of the source.
pub record ListValue (V S : Type 0) : Type 0 where
  pub entries : Map S (ListEntry V S)

pub data ListOp (V S : Type 0) : Type 0 where
  insert_op : Option S → V → ListOp V S
  delete_op : S → ListOp V S

pub data ListError (E S : Type 0) : Type 0 where
  zero_id : ListError E S
  child_error : E → ListError E S
  position_conflict : S → Option S → Option S → ListError E S

module _ {S : Type 0} where
  unfoldable pub known : Option S → ListPosition S
  known none = head
  known (some id) = after_id id

  unfoldable pub after : ListPosition S → Option (Option S)
  after unknown = none
  after head = some none
  after (after_id id) = some (some id)

  -- `position.after().flatten()`.
  unfoldable pub flat_after : ListPosition S → Option S
  flat_after unknown = none
  flat_after head = none
  flat_after (after_id id) = some id

module _ {V S : Type 0} where
  unfoldable pub inserted : Option S → Cell V S → ListEntry V S
  unfolding known
  inserted after cell = record { position = known after; cell = cell }

  unfoldable pub placeholder : Cell V S → ListEntry V S
  placeholder cell = record { position = unknown; cell = cell }

module _ {S : Type 0} ⦃s : Ord S⦄ where
  -- `PartialEq` of the positions.
  unfoldable pub same_position : ListPosition S → ListPosition S → Bool
  same_position unknown unknown = true
  same_position head head = true
  same_position (after_id a) (after_id b) = eqb a b
  same_position _ _ = false

module _ {E V S : Type 0} ⦃s : Ord S⦄ where
  unfoldable pub resolve :
      ListEntry V S → S → Option S → ListPosition S → ListEntry V S × Result (ListError E S) Bool
  unfolding known same_position flat_after
  resolve entry id after unknown = (record entry { position = known after }, ok true)
  resolve entry id after position =
      if same_position position (known after)
      then (entry, ok false)
      else (entry, err (position_conflict id (flat_after position) after))

  -- Fill in an unknown position, or check a known one.
  unfoldable pub resolve_position :
      ListEntry V S → S → Option S → ListEntry V S × Result (ListError E S) Bool
  unfolding resolve
  resolve_position entry id after = resolve entry id after entry.position

  unfoldable pub resolve_known :
      ListEntry V S → S → Option (Option S) → ListEntry V S × Result (ListError E S) Bool
  unfolding resolve_position
  resolve_known entry id none = (entry, ok false)
  resolve_known entry id (some after) = resolve_position entry id after

module _ {T G O E V S : Type 0} (t : ValueType T G O E V S) ⦃eq : PartialEq T⦄ ⦃s : Ord S⦄ where
  -- The merge of another cell into the one of an entry.
  unfoldable pub merge_cell : ListEntry V S → Cell V S → ListEntry V S × Result (ListError E S) Bool
  unfolding merge_child
  merge_cell entry incoming =
      let (c, r) = merge_child t child_error entry.cell incoming in (record entry { cell = c }, r)

  unfoldable pub or_positioned :
      Bool
      → ListEntry V S × Result (ListError E S) Bool
      → ListEntry V S × Result (ListError E S) Bool
  or_positioned positioned (entry, ok changed) = (entry, ok (changed || positioned))
  or_positioned positioned (entry, err e) = (entry, err e)

  unfoldable pub merge_entry :
      S → ListEntry V S → ListEntry V S → ListEntry V S × Result (ListError E S) Bool
  unfolding resolve_known merge_cell or_positioned after
  merge_entry id local remote =
      and_then (resolve_known local id (after remote.position))
        (λ entry positioned. or_positioned positioned (merge_cell entry remote.cell))

  unfoldable pub merge :
      ListValue V S → ListValue V S → MergeStamps S → ListValue V S × Result (ListError E S) Bool
  unfolding merge_entry
  merge self remote stamps =
      let (entries, result) = merge_entries merge_entry false self.entries remote.entries in
      (record { entries = entries }, result)

  -- An insertion at its stamp, by what the list has there.
  unfoldable pub insert_at :
      S → Option S → Cell V S → Option (ListEntry V S) → ListEntry V S × Result (ListError E S) Bool
  unfolding inserted resolve_position merge_cell or_positioned
  insert_at id after incoming none = (inserted after incoming, ok true)
  insert_at id after incoming (some entry) =
      and_then (resolve_position entry id after)
        (λ entry' positioned. or_positioned positioned (merge_cell entry' incoming))

  -- A deletion of an element, by what the list has there.
  unfoldable pub delete_at :
      Cell V S → Option (ListEntry V S) → ListEntry V S × Result (ListError E S) Bool
  unfolding placeholder merge_cell
  delete_at tombstone none = (placeholder tombstone, ok true)
  delete_at tombstone (some entry) = merge_cell entry tombstone

  unfoldable pub store_entry :
      S
      → ListValue V S
      → ListEntry V S × Result (ListError E S) Bool
      → ListValue V S × Result (ListError E S) Bool
  store_entry id self (entry, result) = (record { entries = insert id entry self.entries }, result)

  unfoldable pub apply :
      S → ListValue V S → ListOp V S → MergeStamps S → ListValue V S × Result (ListError E S) Bool
  unfolding insert_at delete_at store_entry
  apply zero_stamp self (insert_op after value) stamps =
      let at = stamps.incoming in
      if eqb at zero_stamp
      then (self, err zero_id)
      else store_entry at self
          (insert_at at after (record { value = some value; stamp = at }) (lookup at self.entries))
  apply zero_stamp self (delete_op id) stamps =
      if eqb id zero_stamp
      then (self, err zero_id)
      else store_entry id self
          (delete_at (record { value = none; stamp = stamps.incoming }) (lookup id self.entries))

module _ {T G O E V S : Type 0} (t : ValueType T G O E V S) ⦃s : Ord S⦄ where
  unfoldable pub max_stamps : S → Map S (ListEntry V S) → S
  unfolding Cell.max_stamp
  max_stamps acc [] = acc
  max_stamps acc ((id, entry) ∷ entries) =
      max_stamps (max acc (Cell.max_stamp t entry.cell)) entries

  unfoldable pub max_stamp : S → ListValue V S → S
  unfolding max_stamps
  max_stamp zero_stamp l = max_stamps zero_stamp l.entries

module _ {V S : Type 0} where
  unfoldable pub entry_cell : Option (ListEntry V S) → Option (Cell V S)
  entry_cell none = none
  entry_cell (some entry) = some entry.cell

  -- The entry of an element with another cell; a missing one is a placeholder.
  unfoldable pub with_cell : Option (ListEntry V S) → Cell V S → ListEntry V S
  unfolding placeholder
  with_cell none c = placeholder c
  with_cell (some entry) c = record entry { cell = c }

  unfoldable pub is_live : S → ListEntry V S → Bool
  unfolding is_tombstone
  is_live id entry = not (is_tombstone entry.cell)

  unfoldable pub anchor : ListEntry V S → Option (Option S)
  unfolding after
  anchor entry = after entry.position

module _ {V S : Type 0} ⦃s : Ord S⦄ where
  unfoldable pub visible_ids : ListValue V S → Option (List S)
  unfolding anchor is_live Sequence.visible_ids
  visible_ids l = Sequence.visible_ids anchor is_live l.entries

  unfoldable pub cell_by_id : ListValue V S → S → Option (Cell V S)
  unfolding entry_cell
  cell_by_id l id = entry_cell (lookup id l.entries)

  unfoldable pub id_at : ListValue V S → ℕ → Option S
  unfolding visible_ids
  id_at l index = elim (visible_ids l) [ none ↦ none | some ids ↦ get_elem? ids index ]

  unfoldable pub cell_at : ListValue V S → ℕ → Option (Cell V S)
  unfolding id_at cell_by_id
  cell_at l index = elim (id_at l index) [ none ↦ none | some id ↦ cell_by_id l id ]

  unfoldable pub cells_of : ListValue V S → List S → List (Cell V S)
  unfolding cell_by_id
  cells_of l [] = []
  cells_of l (id ∷ ids) = elim (cell_by_id l id) [
    | none ↦ cells_of l ids
    | some c ↦ c ∷ cells_of l ids
  ]

  -- The visible cells in list order.
  unfoldable pub cells : ListValue V S → Option (List (Cell V S))
  unfolding visible_ids cells_of
  cells l = elim (visible_ids l) [ none ↦ none | some ids ↦ some (cells_of l ids) ]

module _ {K V S : Type 0} ⦃s : Ord S⦄ where
  unfoldable pub child : ListValue V S → Segment K S → Option (Cell V S)
  unfolding entry_cell
  child l (record_segment field) = none
  child l (list_segment id) = entry_cell (lookup id l.entries)

module _ {T O E V S K : Type 0} (t : ValueType T (Segment K S) O E V S) ⦃eq : PartialEq T⦄
    ⦃s : Ord S⦄ where
  unfoldable pub apply_walk :
      S
      → ListValue V S
      → Op O V S
      → MergeStamps S
      → List (Segment K S)
      → ListValue V S × Result (ListError E S) Bool
  unfolding walk_child entry_cell with_cell
  apply_walk zero_stamp self op stamps [] = (self, ok false)
  apply_walk zero_stamp self op stamps (record_segment field ∷ path) = (self, ok false)
  apply_walk zero_stamp self op stamps (list_segment id ∷ path) =
      if eqb id zero_stamp
      then (self, err zero_id)
      else let found = lookup id self.entries in
        let (c, r) = walk_child t zero_stamp op stamps.incoming path (entry_cell found) in
        (record { entries = insert id (with_cell found c) self.entries }, map_err child_error r)
