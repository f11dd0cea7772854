-- ===== src/Crdt/Record/Walk.antt =====
-- An operation on a path into a record (zendb-types/src/crdt/values/record.rs): what it does to the
-- field at the head of the path, and that it leaves the others alone.
use zendb.Prelude.{
  some, List, ◌∷◌, Ord, eqb, PartialEq, ◌≡◌, ◌≢◌, refl, arith, map_err, if◌then◌else◌,
}
use zendb.Map.{lookup, insert, lookup-insert, lookup-ext, IsSorted, insert-IsSorted}
use zendb.Crdt.Stamp.{MergeStamps}
use zendb.Crdt.Cell.{Cell, Op, ValueType}
use zendb.Crdt.Container.{Segment, record_segment, walk_child}
use zendb.Crdt.Record.{Record, child_error, apply_walk, get}

module _ {T O E V S K : Type 0} (t : ValueType T (Segment K S) O E V S) ⦃eq : PartialEq T⦄
    ⦃k : Ord K⦄ ⦃s : Ord S⦄ (zero : S) where
  -- An operation on a path into a field leaves there what the walk makes of the field's cell, reports
  -- what the walk reports, and changes no other field.
  pub record_walk-get :
      (r : Record K V S) (op : Op O V S) (st : MergeStamps S) (field q : K)
      (path : List (Segment K S))
      → let walked = walk_child t zero op st.incoming path (get r field) in
        let (r', result) = apply_walk t zero r op st (record_segment field ∷ path) in
        (get r' q ≡ (if eqb q field then some walked.0 else get r q))
        × (result ≡ map_err child_error walked.1)
  unfolding apply_walk get
  record_walk-get r op st field q path = (lookup-insert field q _ r.fields, refl)

  walk_fields :
      (r : Record K V S) (op : Op O V S) (st : MergeStamps S) (field : K)
      (path : List (Segment K S))
      → (apply_walk t zero r op st (record_segment field ∷ path)).0.fields
        ≡ insert field (walk_child t zero op st.incoming path (lookup field r.fields)).0 r.fields
  unfolding apply_walk
  walk_fields r op st field path = refl

  -- Operations on paths into two different fields give the same record in either order.
  pub record_walk-walk :
      (r : Record K V S) (op op' : Op O V S) (st st' : MergeStamps S) (field field' : K)
      (path path' : List (Segment K S))
      → IsSorted r.fields
      → field ≢ field'
      → (apply_walk t zero
          (apply_walk t zero r op st (record_segment field ∷ path)).0
          op'
          st'
          (record_segment field' ∷ path')).0
        ≡ (apply_walk t zero
            (apply_walk t zero r op' st' (record_segment field' ∷ path')).0
            op
            st
            (record_segment field ∷ path)).0
  unfolding apply_walk
  record_walk-walk r op op' st st' field field' path path' sorted ne i = record {
    fields = swapped i;
  }
    where
      cell : Cell V S
      cell = (walk_child t zero op st.incoming path (lookup field r.fields)).0

      cell' : Cell V S
      cell' = (walk_child t zero op' st'.incoming path' (lookup field' r.fields)).0

      apart : lookup field' (insert field cell r.fields) ≡ lookup field' r.fields
      apart = ground (arith, lookup-insert field field' cell r.fields, k.cmp_iff field' field)

      apart' : lookup field (insert field' cell' r.fields) ≡ lookup field r.fields
      apart' = ground (arith, lookup-insert field' field cell' r.fields, k.cmp_iff field field')

      swapped :
          insert field'
            (walk_child t zero op' st'.incoming path'
              (lookup field' (insert field cell r.fields))).0
            (insert field cell r.fields)
          ≡ insert field
              (walk_child t zero op st.incoming path
                (lookup field (insert field' cell' r.fields))).0
              (insert field' cell' r.fields)
      swapped =
          rw (apart, apart')
            (lookup-ext _ _ (insert-IsSorted _ _ _ (insert-IsSorted _ _ _ sorted))
              (insert-IsSorted _ _ _ (insert-IsSorted _ _ _ sorted))
              (λ q. ground (
                arith,
                lookup-insert field' q cell' (insert field cell r.fields),
                lookup-insert field q cell r.fields,
                lookup-insert field q cell (insert field' cell' r.fields),
                lookup-insert field' q cell' r.fields,
                k.cmp_iff q field,
                k.cmp_iff q field',
              )))
