-- ===== src/Crdt/PriorityQueue/Convergence.antt =====
-- Merging priority queues that agree on what was pushed under each stamp: replicas converge.
use zendb.Prelude.{
  Bool, true, false, Result, inl, inr, ◌⊎◌, ◌↔◌, ◌≡◌, refl, ap, Ord, PartialEq, ok, IsSemilattice,
  wrap-IsSemilattice,
}
use zendb.Prelude.Int.{ℤ}
use zendb.Map.Merge.{merge_entries}
use zendb.Map.Merge.Join.{Valid}
use zendb.Map.Merge.Loop.{changes}
use zendb.Map.Merge.Total.{loop-join, loop-IsSemilattice, loop-false_iff}
use zendb.Crdt.Stamp.{MergeStamps}
use zendb.Crdt.PriorityQueue.{PqEntry, PriorityQueue, merge_entry, merge}
use zendb.Crdt.PriorityQueue.Entry.{
  Agrees, entry_changes, merge_entry-join, entry_changes-false_iff, join_entry-IsSemilattice,
}

Bool-oks :
    {E : Type 0} (b : Bool)
    → (◌≡◌ {A = Result E Bool} (ok b) (ok true)) ⊎ (◌≡◌ {A = Result E Bool} (ok b) (ok false))
Bool-oks true = inl refl
Bool-oks false = inr refl

module _ {V S : Type 0} ⦃v : PartialEq V⦄ ⦃s : Ord S⦄ (pushed : S → ℤ × V) where
  -- The entries are in stamp order, and hold the priority and the value that were pushed under the
  -- stamp: stamps are globally unique, so this is one function for all replicas.
  abbrev pub IsValid : PriorityQueue V S → Type 0
  IsValid q = Valid (λ id. Agrees (pushed id)) q.entries

  entries-IsSemilattice :
      IsSemilattice
        (Valid {K = S} {V = PqEntry V S} (λ id. Agrees (pushed id)))
        (λ a b. (merge_entries merge_entry false a b).0)
  entries-IsSemilattice =
      loop-IsSemilattice merge_entry entry_changes (λ id. merge_entry-join id (pushed id))
        (λ id a b h k. entry_changes-false_iff a b) (λ id. join_entry-IsSemilattice (pushed id))

  -- Merging replicas of a priority queue that agree on what was pushed under each stamp is
  -- commutative, associative and idempotent, and keeps the entries in order and in agreement.
  pub pq_merge-IsSemilattice :
      (st : MergeStamps S) → IsSemilattice IsValid (λ a b. (merge a b st).0)
  unfolding merge
  pq_merge-IsSemilattice st =
      wrap-IsSemilattice (λ e. record { entries = e }) (λ q. q.entries) (λ e. refl) (λ q. refl)
        (λ q h. h) (λ e h. h) entries-IsSemilattice

  -- A merge of priority queues that agree on what was pushed under each stamp does not fail, and
  -- reports `Ok(false)` exactly when it leaves the queue as it was.
  pub pq_merge_changed_iff :
      (a b : PriorityQueue V S) (st : MergeStamps S)
      → IsValid a
      → IsValid b
      → (((merge a b st).1 ≡ ok true) ⊎ ((merge a b st).1 ≡ ok false))
        × (((merge a b st).1 ≡ ok false) ↔ ((merge a b st).0 ≡ a))
  unfolding merge
  pq_merge_changed_iff a b st h k =
      let loop =
        loop-false_iff merge_entry entry_changes (λ id. merge_entry-join id (pushed id))
          (λ id a b h k. entry_changes-false_iff a b) (λ id. join_entry-IsSemilattice (pushed id))
          a.entries b.entries h k in
      let end =
        loop-join merge_entry entry_changes (λ id. merge_entry-join id (pushed id))
          (λ id a b h k. entry_changes-false_iff a b) (λ id. join_entry-IsSemilattice (pushed id))
          a.entries b.entries h k in
      (
        rw end (Bool-oks (changes entry_changes a.entries b.entries)),
        (
          λ e i. record { entries = loop.0 e i },
          λ e. loop.1 (ap (λ (q : PriorityQueue V S). q.entries) e),
        ),
      )
