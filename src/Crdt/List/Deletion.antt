-- ===== src/Crdt/List/Deletion.antt =====
-- What a deletion does to the visible elements of a list (zendb-types/src/crdt/values/list.rs).
use zendb.Prelude.{
  Bool, true, false, ◌&&◌, not, Option, none, some, List, Ord, eqb, gtb, option_ord, PartialEq, ◌≡◌,
  ◌↔◌, refl, ap, arith, ok, ◌∙◌, sym,
}
use zendb.Map.{lookup, insert, IsSorted, lookup-insert, insert-IsSorted}
use zendb.Crdt.Stamp.{MergeStamps}
use zendb.Crdt.Cell.{ValueType, is_tombstone, merge, replace}
use zendb.Crdt.Cell.Register.{merge_values-none}
use zendb.Crdt.Container.{merge_child}
use zendb.Crdt.Sequence.Visited.{has}
use zendb.Crdt.Sequence.Outcome.{is_visible}
use zendb.Crdt.Sequence.Children.{anchored}
use zendb.Crdt.Sequence.Visible.{IsPlaced}
use zendb.Crdt.List.Order.{anchored-IsPlaced, visible_ids-has}
use zendb.Crdt.List.{
  ListEntry, ListValue, visible_ids, apply, delete_op, anchor, is_live, delete_at, merge_cell,
  store_entry,
}

Bool-ext : (a b : Bool) → (a ≡ true → b ≡ true) → (b ≡ true → a ≡ true) → a ≡ b
Bool-ext true b f g = sym (f refl)
Bool-ext false true f g = g refl
Bool-ext false false f g = refl

module _ {V S : Type 0} ⦃s : Ord S⦄ where
  -- The entry of an element with a tombstone for its cell.
  abbrev buried : S → ListEntry V S → S → ListValue V S → ListValue V S
  buried id e at l = record {
    entries = insert id (record e { cell = record { value = none; stamp = at } }) l.entries;
  }

  buried-anchored :
      (id : S) (e : ListEntry V S) (at : S) (l : ListValue V S) (c : S) (q : Option S)
      → lookup id l.entries ≡ some e
      → anchored anchor c q (buried id e at l).entries ≡ anchored anchor c q l.entries
  unfolding anchored anchor
  buried-anchored id e at l c q f = ground (
    arith,
    lookup-insert id c (record e { cell = record { value = none; stamp = at } }) l.entries,
    s.cmp_iff c id,
  )

  buried-visible :
      (id : S) (e : ListEntry V S) (at : S) (l : ListValue V S) (q : S)
      → is_visible is_live (buried id e at l).entries q
        ≡ (is_visible is_live l.entries q && not (eqb q id))
  unfolding is_visible is_live is_tombstone
  buried-visible id e at l q = ground (
    arith,
    lookup-insert id q (record e { cell = record { value = none; stamp = at } }) l.entries,
  )

module _ {T G O E V S : Type 0} (t : ValueType T G O E V S) ⦃eq : PartialEq T⦄ ⦃s : Ord S⦄
    (zero : S) where
  merge_cell-buried :
      (e : ListEntry V S) (at : S)
      → gtb at e.cell.stamp ≡ true
      → merge_cell t e (record { value = none; stamp = at })
        ≡ (record e { cell = record { value = none; stamp = at } }, ok true)
  unfolding merge_cell merge_child merge replace
  merge_cell-buried e at g = rw (
    merge_values-none t e.cell (record { value = none; stamp = at }) e.cell.value
        (record { current = e.cell.stamp; incoming = at }),
    g,
  )

  delete-buried :
      (l : ListValue V S) (id : S) (e : ListEntry V S) (st : MergeStamps S)
      → eqb id zero ≡ false
      → lookup id l.entries ≡ some e
      → gtb st.incoming e.cell.stamp ≡ true
      → (apply t zero l (delete_op id) st).0 ≡ buried id e st.incoming l
  unfolding apply store_entry delete_at
  delete-buried l id e st z f g =
      rw (z, f) (ap (λ x. (store_entry t id l x).0) (merge_cell-buried e st.incoming g))

  -- After a deletion whose stamp is later than that of the element's cell, the visible elements are
  -- those that were visible before, without the deleted one.
  pub visible_ids-delete :
      (l : ListValue V S) (id : S) (e : ListEntry V S) (st : MergeStamps S) (ids ids' : List S)
      → IsSorted l.entries
      → eqb id zero ≡ false
      → lookup id l.entries ≡ some e
      → gtb st.incoming e.cell.stamp ≡ true
      → visible_ids l ≡ some ids
      → visible_ids (apply t zero l (delete_op id) st).0 ≡ some ids'
      → (q : S) → has q ids' ≡ (has q ids && not (eqb q id))
  visible_ids-delete l id e st ids ids' sorted z f g v v' q =
      Bool-ext (has q ids') (has q ids && not (eqb q id)) forth back
    where
      after_it : ListValue V S
      after_it = buried id e st.incoming l

      now :
          (has q ids' ≡ true)
          ↔ (IsPlaced anchor after_it.entries q × (is_visible is_live after_it.entries q ≡ true))
      now =
          visible_ids-has after_it ids' q (insert-IsSorted id _ l.entries sorted)
            (ap visible_ids (sym (delete-buried l id e st z f g)) ∙ v')

      before :
          (has q ids ≡ true)
          ↔ (IsPlaced anchor l.entries q × (is_visible is_live l.entries q ≡ true))
      before = visible_ids-has l ids q sorted v

      forth : has q ids' ≡ true → (has q ids && not (eqb q id)) ≡ true
      forth h =
          let (placed, seen) = now.0 h in
          let placed' =
            anchored-IsPlaced anchor after_it.entries l.entries
              (λ c a i. sym (buried-anchored id e st.incoming l c a f) ∙ i) q placed in
          ground (
            arith,
            before.1 (placed', ground (arith, buried-visible id e st.incoming l q, seen)),
            buried-visible id e st.incoming l q,
            seen,
          )

      back : (has q ids && not (eqb q id)) ≡ true → has q ids' ≡ true
      back h =
          let (placed, seen) = before.0 (ground (arith, h)) in
          now.1 (
            anchored-IsPlaced anchor l.entries after_it.entries
                (λ c a i. buried-anchored id e st.incoming l c a f ∙ i) q placed,
            ground (arith, buried-visible id e st.incoming l q, seen, h),
          )
