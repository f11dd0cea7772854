-- ===== src/Crdt/List/Convergence.antt =====
-- Merging lists (zendb-types/src/crdt/values/list.rs) that agree on where each element was inserted:
-- replicas converge, if the cells of each element do.
use zendb.Prelude.{
  Bool, false, ◌||◌, Option, Ord, PartialEq, ◌≡◌, ◌↔◌, refl, ap, arith, ok, IsSemilattice,
  wrap-IsSemilattice, pair-IsSemilattice, and_then, ◌∙◌,
}
use zendb.Map.Merge.Join.{Valid}
use zendb.Map.Merge.Total.{loop-IsSemilattice, loop-false_iff}
use zendb.Crdt.Stamp.{MergeStamps}
use zendb.Crdt.Cell.{Cell, ValueType}
use zendb.Crdt.Cell.Convergence.{CellConverges}
use zendb.Crdt.Container.{merge_child}
use zendb.Crdt.List.Position.{
  PositionAgrees, join_position, position_changed, join_position-IsSemilattice, position_exact,
  resolve_known-join,
}
use zendb.Crdt.List.{ListEntry, ListValue, merge_cell, or_positioned, merge_entry, merge}

module _ {T G O E V S : Type 0} (t : ValueType T G O E V S) ⦃eq : PartialEq T⦄ ⦃s : Ord S⦄
    {joined : Cell V S → Cell V S → Cell V S} {changed : Cell V S → Cell V S → Bool}
    {Q : S → Cell V S → Type 0} (law : (id : S) → CellConverges t joined changed (Q id))
    (placed : S → Option S) where
  -- The entry has the position that its element was inserted at, if it knows it, and a cell as `Q`
  -- says of the element.
  abbrev pub EntryAgrees : S → ListEntry V S → Type 0
  EntryAgrees id e = PositionAgrees (placed id) e.position × Q id e.cell

  -- The entries are in the order of their stamps, and each agrees.
  abbrev pub IsValid : ListValue V S → Type 0
  IsValid l = Valid EntryAgrees l.entries

  abbrev join_entry : ListEntry V S → ListEntry V S → ListEntry V S
  join_entry a b = record {
    position = join_position a.position b.position;
    cell = joined a.cell b.cell;
  }

  abbrev entry_changed : ListEntry V S → ListEntry V S → Bool
  entry_changed a b = changed a.cell b.cell || position_changed a.position b.position

  merge_cell-join :
      (id : S) (a : ListEntry V S) (c : Cell V S)
      → Q id a.cell
      → Q id c
      → merge_cell t a c ≡ (record a { cell = joined a.cell c }, ok (changed a.cell c))
  unfolding merge_cell merge_child
  merge_cell-join id a c p q = rw ((law id).total a.cell c p q)

  merge_entry-join :
      (id : S) (a b : ListEntry V S)
      → EntryAgrees id a
      → EntryAgrees id b
      → merge_entry t id a b ≡ (join_entry a b, ok (entry_changed a b))
  unfolding merge_entry or_positioned
  merge_entry-join id a b p q =
      ap
        (λ x.
          and_then x (λ entry positioned. or_positioned t positioned (merge_cell t entry b.cell)))
        (resolve_known-join a.cell id (placed id) a.position b.position p.0 q.0)
      ∙ ap (or_positioned t (position_changed a.position b.position)) (
          merge_cell-join id
            (record { position = join_position a.position b.position; cell = a.cell }) b.cell p.1
            q.1)

  join_entry-IsSemilattice : (id : S) → IsSemilattice (EntryAgrees id) join_entry
  join_entry-IsSemilattice id =
      wrap-IsSemilattice (λ x. record { position = x.0; cell = x.1 }) (λ e. (e.position, e.cell))
        (λ x. refl) (λ e. refl) (λ e h. h) (λ x h. h)
        (pair-IsSemilattice (PositionAgrees (placed id)) (Q id) join_position joined
          (join_position-IsSemilattice (placed id)) (law id).joined)

  entry_exact :
      (id : S) (a b : ListEntry V S)
      → EntryAgrees id a
      → EntryAgrees id b
      → (entry_changed a b ≡ false) ↔ (join_entry a b ≡ a)
  entry_exact id a b p q =
      let cells = (law id).exact a.cell b.cell p.1 q.1 in
      let positions = position_exact a.position b.position in
      (
        λ h i. record {
          position = positions.0 (ground (arith, h)) i;
          cell = cells.0 (ground (arith, h)) i;
        },
        λ h. ground (
          arith,
          cells.1 (ap (λ (e : ListEntry V S). e.cell) h),
          positions.1 (ap (λ (e : ListEntry V S). e.position) h),
        ),
      )

  -- Merging lists that agree on where each element was inserted is commutative, associative and
  -- idempotent, and keeps the entries in order and in agreement, if the cells of each element converge.
  pub list_merge-IsSemilattice :
      (st : MergeStamps S) → IsSemilattice IsValid (λ a b. (merge t a b st).0)
  unfolding merge
  list_merge-IsSemilattice st =
      wrap-IsSemilattice (λ e. record { entries = e }) (λ l. l.entries) (λ e. refl) (λ l. refl)
        (λ l h. h) (λ e h. h)
        (loop-IsSemilattice (merge_entry t) entry_changed merge_entry-join entry_exact
          join_entry-IsSemilattice)

  -- A merge of lists that agree on where each element was inserted, and whose cells converge, reports
  -- `Ok(false)` exactly when it leaves the list as it was.
  pub list_merge_changed_iff :
      (a b : ListValue V S) (st : MergeStamps S)
      → IsValid a
      → IsValid b
      → ((merge t a b st).1 ≡ ok false) ↔ ((merge t a b st).0 ≡ a)
  unfolding merge
  list_merge_changed_iff a b st p q =
      let both =
        loop-false_iff (merge_entry t) entry_changed merge_entry-join entry_exact
          join_entry-IsSemilattice a.entries b.entries p q in
      (
        λ e i. record { entries = both.0 e i },
        λ e. both.1 (ap (λ (l : ListValue V S). l.entries) e),
      )
