-- ===== src/Crdt/Record/Convergence.antt =====
-- Merging records (zendb-types/src/crdt/values/record.rs) field by field: replicas converge, if the
-- cells of each field do.
use zendb.Prelude.{
  Bool, false, Ord, PartialEq, ◌≡◌, ◌↔◌, refl, ap, Result, ok, IsSemilattice, agree-IsSemilattice,
  wrap-IsSemilattice,
}
use zendb.Map.Merge.Join
use zendb.Map.Merge.Join.{Valid}
use zendb.Map.Merge.Loop.{changes}
use zendb.Map.Merge.Total.{loop-join, loop-false_iff, changes_iff}
use zendb.Map.Merge.Convergence.{join-IsSemilattice}
use zendb.Crdt.Stamp.{MergeStamps}
use zendb.Crdt.Cell.{Cell, ValueType}
use zendb.Crdt.Cell.Convergence.{Converges, CellConverges}
use zendb.Crdt.Container.{merge_child}
use zendb.Crdt.Record.{Record, RecordError, child_error, merge}

module _ {T G O E V S K : Type 0} (t : ValueType T G O E V S) ⦃eq : PartialEq T⦄ ⦃k : Ord K⦄
    ⦃s : Ord S⦄ {joined : Cell V S → Cell V S → Cell V S} {changed : Cell V S → Cell V S → Bool}
    {Q : K → Cell V S → Type 0} (law : (field : K) → CellConverges t joined changed (Q field)) where
  -- The fields are in order, and the cell of each is as `Q` says of the field.
  abbrev pub IsValid : Record K V S → Type 0
  IsValid r = Valid Q r.fields

  abbrev merge_of : K → Cell V S → Cell V S → Cell V S × Result (RecordError E) Bool
  merge_of field local remote = merge_child t child_error local remote

  merge_of-join :
      (field : K) (a b : Cell V S)
      → Q field a
      → Q field b
      → merge_of field a b ≡ (joined a b, ok (changed a b))
  unfolding merge_child
  merge_of-join field a b p q = rw ((law field).total a b p q)

  abbrev pub join_record : Record K V S → Record K V S → Record K V S
  join_record a b = record { fields = Join.join joined a.fields b.fields }

  pub record_merge-join :
      (a b : Record K V S) (st : MergeStamps S)
      → IsValid a
      → IsValid b
      → merge t a b st ≡ (join_record a b, ok (changes changed a.fields b.fields))
  unfolding merge
  record_merge-join a b st p q = rw (
      loop-join merge_of changed merge_of-join (λ field. (law field).exact)
        (λ field. (law field).joined) a.fields b.fields p q)

  join_record-IsSemilattice : IsSemilattice IsValid join_record
  join_record-IsSemilattice =
      wrap-IsSemilattice (λ m. record { fields = m }) (λ r. r.fields) (λ m. refl) (λ r. refl)
        (λ r h. h) (λ m h. h) (join-IsSemilattice (λ field. (law field).joined))

  -- Merging records is commutative, associative and idempotent, and keeps the fields in order, if the
  -- cells of each field converge.
  pub record_merge-IsSemilattice :
      (st : MergeStamps S) → IsSemilattice IsValid (λ a b. (merge t a b st).0)
  record_merge-IsSemilattice st =
      agree-IsSemilattice join_record (λ a b. (merge t a b st).0)
        (λ a b p q. ap (λ x. x.0) (record_merge-join a b st p q)) join_record-IsSemilattice

  -- A merge of records whose cells converge field by field does not fail, and reports `Ok(false)` exactly when it leaves the record as
  -- it was.
  pub record_merge_changed_iff :
      (a b : Record K V S) (st : MergeStamps S)
      → IsValid a
      → IsValid b
      → ((merge t a b st).1 ≡ ok (changes changed a.fields b.fields))
        × (((merge t a b st).1 ≡ ok false) ↔ ((merge t a b st).0 ≡ a))
  unfolding merge
  record_merge_changed_iff a b st p q =
      let both =
        loop-false_iff merge_of changed merge_of-join (λ field. (law field).exact)
          (λ field. (law field).joined) a.fields b.fields p q in
      (
        ap (λ x. x.1) (record_merge-join a b st p q),
        (
          λ e i. record { fields = both.0 e i },
          λ e. both.1 (ap (λ (r : Record K V S). r.fields) e),
        ),
      )

  changes_exact :
      (a b : Record K V S)
      → IsValid a
      → IsValid b
      → (changes changed a.fields b.fields ≡ false) ↔ (join_record a b ≡ a)
  changes_exact a b p q =
      let both =
        changes_iff merge_of changed merge_of-join (λ field. (law field).exact)
          (λ field. (law field).joined) a.fields b.fields p q in
      (λ h i. record { fields = both.0 h i }, λ h. both.1 (ap (λ (r : Record K V S). r.fields) h))

  -- A record whose fields converge is a value that converges, under any stamps of its cell, so the
  -- theorems on cells and records hold for records nested to any depth.
  pub record-Converges :
      Converges
        (merge t)
        (λ a b. join_record)
        (λ a b v w. changes changed v.fields w.fields)
        (λ a. IsValid)
  record-Converges =
      let whole = join_record-IsSemilattice in
      record {
        total = λ a b v w p q. record_merge-join v w (record { current = a; incoming = b }) p q;
        exact = λ a b v w p q h. changes_exact v w p q;
        closed = λ a b v w p q. whole.closed v w p q;
        comm = λ a b v w p q. whole.comm v w p q;
        assoc = λ a b c u v w p q r. whole.assoc u v w p q r;
        idem = λ a v p. whole.idem v p;
      }
