-- ===== src/Crdt/MvRegister/Assignment.antt =====
-- An assignment replaces the values that its creator has seen.
use zendb.Prelude.{
  Bool, false, ◌||◌, none, some, List, [], ◌∷◌, if◌then◌else◌, Ord, eqb, PartialEq, ◌≡◌, refl, ◌∙◌,
  arith,
}
use zendb.Map.{
  Map, lookup, contains_key, remove, keys, IsSorted, lookup-insert, lookup-remove, remove-IsSorted,
}
use zendb.Crdt.Stamp.{MergeStamps}
use zendb.Crdt.Removals.{advance, is_news}
use zendb.Crdt.MvRegister.{MvRegister, replace_all, add_entry, conflicts, apply, assign_op}
use zendb.Crdt.MvRegister.Lookup.{mem, mem-keys}

module _ {S : Type 0} ⦃s : Ord S⦄ where
  contains_key-advance :
      (q id stamp : S) (m : Map S S)
      → contains_key q (advance id stamp m).0 ≡ (eqb q id || contains_key q m)
  unfolding advance is_news
  contains_key-advance q id stamp m = ground (arith, lookup-insert id q stamp m, s.cmp_iff q id)

module _ {V S : Type 0} ⦃s : Ord S⦄ where
  lookup-replace_all :
      (changed : Bool) (stamp q : S) (ids : List S) (r : MvRegister V S)
      → IsSorted r.entries
      → (lookup q (replace_all changed stamp ids r).0.entries
          ≡ (if mem q ids then none else lookup q r.entries))
        × (contains_key q (replace_all changed stamp ids r).0.removed
            ≡ (mem q ids || contains_key q r.removed))
  unfolding replace_all
  lookup-replace_all changed stamp q [] r h = (refl, refl)
  lookup-replace_all changed stamp q (id ∷ ids) r h =
      let (removed, news) = advance id stamp r.removed in
      let next : MvRegister V S = record { entries = remove id r.entries; removed = removed } in
      let (e, g) =
        lookup-replace_all (changed || news || contains_key id r.entries) stamp q ids next
          (remove-IsSorted id r.entries h) in
      (
        e ∙ ground (arith, lookup-remove id q r.entries h),
        g ∙ ground (arith, contains_key-advance q id stamp r.removed),
      )

module _ {V S : Type 0} ⦃v : PartialEq V⦄ ⦃s : Ord S⦄ where
  conflicts_new :
      (id : S) (value : V) (m : Map S V) → contains_key id m ≡ false → conflicts id value m ≡ false
  unfolding conflicts
  conflicts_new id value m new = ground (arith, new)

  -- An assignment that a replica makes at a fresh stamp, which is neither visible nor removed there,
  -- leaves exactly the assigned value visible: all that was visible is replaced.
  pub apply-assign_op :
      (r : MvRegister V S) (value : V) (st : MergeStamps S)
      → IsSorted r.entries
      → contains_key st.incoming r.entries ≡ false
      → contains_key st.incoming r.removed ≡ false
      → (q : S)
      → lookup q (apply r (assign_op r value) st).0.entries
        ≡ (if eqb q st.incoming then some value else none)
  unfolding apply conflicts add_entry
  apply-assign_op r value st h new live q =
      let id = st.incoming in
      let (after, changed) = replace_all false id (keys r.entries) r in
      let (e, g) = lookup-replace_all false id q (keys r.entries) r h in
      let kept : contains_key id after.removed ≡ false =
        (lookup-replace_all false id id (keys r.entries) r h).1
        ∙ ground (arith, mem-keys id r.entries, new, live) in
      rw (conflicts_new id value r.entries new, kept)
        (lookup-insert id q value after.entries ∙ ground (arith, e, mem-keys q r.entries))
