-- ===== src/Crdt/Cell/Register.antt =====
-- Deletes and upserts of a cell (zendb-types/src/crdt/cell.rs) make it a last-writer-wins register.
use zendb.Prelude.{
  Option, none, some, Ord, PartialEq, ◌≡◌, ◌≢◌, arith, gtb, if◌then◌else◌, refl, sym,
}
use zendb.Crdt.Stamp.{MergeStamps}
use zendb.Crdt.Cell.{Cell, Op, ValueType, apply, merge, delete, upsert, replace, merge_values}

-- The operation that leaves a tombstone, or a value.
abbrev pub write : {O V S : Type 0} → Option V → Op O V S
write none = delete
write (some v) = upsert v

module _ {T G O E V S : Type 0} (t : ValueType T G O E V S) ⦃eq : PartialEq T⦄ ⦃s : Ord S⦄ where
  -- The cell that a write makes, unless what is there is as late.
  write_lem :
      (c : Cell V S) (x : Option V) (st : MergeStamps S)
      → (apply t c (write x) st).0
        ≡ (if gtb st.incoming c.stamp then record { value = x; stamp = st.incoming } else c)
  unfolding apply
  write_lem c none st = ground arith
  write_lem c (some v) st = ground arith

  -- Two writes, deletes or upserts, with different stamps give the same cell in either order.
  pub cell_apply-apply :
      (c : Cell V S) (x y : Option V) (a b : MergeStamps S)
      → a.incoming ≢ b.incoming
      → (apply t (apply t c (write x) a).0 (write y) b).0
        ≡ (apply t (apply t c (write y) b).0 (write x) a).0
  cell_apply-apply c x y a b h = ground (
    arith,
    write_lem c x a,
    write_lem c y b,
    write_lem (apply t c (write x) a).0 y b,
    write_lem (apply t c (write y) b).0 x a,
    s.cmp_iff a.incoming b.incoming,
    s.cmp_reverse a.incoming b.incoming,
    s.cmp_reverse a.incoming c.stamp,
    s.cmp_reverse b.incoming c.stamp,
    s.cmp_trans c.stamp a.incoming b.incoming,
    s.cmp_trans c.stamp b.incoming a.incoming,
  )

  pub merge_values-none :
      (c d : Cell V S) (x : Option V) (st : MergeStamps S)
      → merge_values t c d x none st ≡ replace c d st
  unfolding merge_values
  merge_values-none c d none st = refl
  merge_values-none c d (some v) st = refl

  -- A delete is the merge of a tombstone with its stamp, and reports the same.
  pub apply_delete-merge :
      (c : Cell V S) (st : MergeStamps S)
      → apply t c delete st
        ≡ merge t c
            (record { value = none; stamp = st.incoming })
            (record { current = c.stamp; incoming = st.incoming })
  unfolding apply merge
  apply_delete-merge c st = sym (
      merge_values-none c (record { value = none; stamp = st.incoming }) c.value
        (record { current = c.stamp; incoming = st.incoming }))
