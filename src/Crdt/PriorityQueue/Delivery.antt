-- ===== src/Crdt/PriorityQueue/Delivery.antt =====
-- Operations on a priority queue act as merges, so their delivery order does not matter.
use zendb.Prelude.{
  false, ◌≡◌, refl, ap, arith, Ord, gtb, Option, none, some, [], ◌∷◌, PartialEq, if◌then◌else◌,
  join-swap, Bool-cases, inl, inr,
}
use zendb.Prelude.Int.{ℤ}
use zendb.Map.{Map, lookup, IsSorted, insert_same}
use zendb.Map.Merge
use zendb.Map.Merge.{merge_entries}
use zendb.Crdt.Stamp.{MergeStamps}
use zendb.Crdt.PriorityQueue.{
  PqEntry, pending_pop, present, PriorityQueue, PqOp, merge_clock, merge_entry, merge, push_at,
  pop_at, apply,
}
use zendb.Crdt.PriorityQueue.Convergence.{IsValid, pq_merge-IsSemilattice}

module _ {V S : Type 0} ⦃v : PartialEq V⦄ ⦃s : Ord S⦄ where
  -- The queue that an operation stands for.
  pub delta : PqOp V S → S → PriorityQueue V S
  delta (PqOp.push priority value) id = record { entries = (id, present priority value none) ∷ [] }
  delta (PqOp.pop id) at = record { entries = if gtb at id then (id, pending_pop at) ∷ [] else [] }

  push_at-merge :
      (id : S) (p : ℤ) (x : V) (m : Map S (PqEntry V S)) (o : Option (PqEntry V S))
      → IsSorted m
      → lookup id m ≡ o
      → (push_at id p x m o).0 ≡ (merge_entries merge_entry false m ((id, present p x none) ∷ [])).0
  unfolding push_at merge_entries Merge.merge_entry merge_entry merge_clock
  push_at-merge id p x m none h e = ground arith
  push_at-merge id p x m (some (pending_pop d)) h e = ground arith
  push_at-merge id p x m (some (present q y none)) h e =
      ground (arith, insert_same id (present q y none) m h)
  push_at-merge id p x m (some (present q y (some d))) h e =
      ground (arith, insert_same id (present q y (some d)) m h)

  pop_at-merge :
      (id at : S) (m : Map S (PqEntry V S)) (o : Option (PqEntry V S))
      → lookup id m ≡ o
      → (pop_at at id m o).0 ≡ (merge_entries merge_entry false m ((id, pending_pop at) ∷ [])).0
  unfolding pop_at merge_entries Merge.merge_entry merge_entry
  pop_at-merge id at m none e = ground arith
  pop_at-merge id at m (some (pending_pop d)) e = ground arith
  pop_at-merge id at m (some (present q y d)) e = ground arith

  -- An operation acts on a queue in stamp order as the merge of its one-element queue does; a pop
  -- that is not later than the push it names does nothing.
  pub pq_apply-merge :
      (a : PriorityQueue V S) (op : PqOp V S) (st : MergeStamps S)
      → IsSorted a.entries
      → (apply a op st).0 ≡ (merge a (delta op st.incoming) st).0
  unfolding apply merge delta merge_entries
  pq_apply-merge a (PqOp.push p x) st h =
      ap (λ (e : Map S (PqEntry V S)). record { entries = e })
        (push_at-merge st.incoming p x a.entries (lookup st.incoming a.entries) h refl)
  pq_apply-merge a (PqOp.pop id) st h = elim (Bool-cases (gtb st.incoming id)) [
    | inl later ↦ rw later (
        ap (λ (e : Map S (PqEntry V S)). record { entries = e })
          (pop_at-merge id st.incoming a.entries (lookup id a.entries) refl))
    | inr early ↦ rw (early, merge_entries)
  ]

module _ {V S : Type 0} ⦃v : PartialEq V⦄ ⦃s : Ord S⦄ (pushed : S → ℤ × V) where
  -- A push carries what was pushed under its stamp.
  abbrev pub IsHonest : PqOp V S → S → Type 0
  IsHonest (PqOp.push p x) id = (p ≡ (pushed id).0) × (x ≡ (pushed id).1)
  IsHonest (PqOp.pop id) at = Unit

  delta-IsValid : (op : PqOp V S) (x : S) → IsHonest op x → IsValid pushed (delta op x)
  unfolding delta
  delta-IsValid (PqOp.push p x) id h = ((tt, tt), (h, tt))
  delta-IsValid (PqOp.pop id) at h = elim (Bool-cases (gtb at id)) [
    | inl later ↦ rw later ((tt, tt), (tt, tt))
    | inr early ↦ rw early (tt, tt)
  ]

  -- Two operations on a valid queue commute, where a push carries what was pushed under its stamp:
  -- a pop may arrive before the push of the element that it names.
  pub pq_apply-apply :
      (a : PriorityQueue V S) (op op' : PqOp V S) (st st' : MergeStamps S)
      → IsValid pushed a
      → IsHonest op st.incoming
      → IsHonest op' st'.incoming
      → (apply (apply a op st).0 op' st').0 ≡ (apply (apply a op' st').0 op st).0
  unfolding merge
  pq_apply-apply a op op' st st' h o o' =
      let j = λ (x y : PriorityQueue V S). (merge x y st).0 in
      let t = pq_merge-IsSemilattice pushed st in
      let d = delta op st.incoming in
      let d' = delta op' st'.incoming in
      let vd = delta-IsValid op st.incoming o in
      let vd' = delta-IsValid op' st'.incoming o' in
      rw
        (
          pq_apply-merge a op st h.0,
          pq_apply-merge a op' st' h.0,
          pq_apply-merge (j a d) op' st' (t.closed a d h vd).0,
          pq_apply-merge (j a d') op st (t.closed a d' h vd').0,
        )
        (join-swap j t a d d' h vd vd')
