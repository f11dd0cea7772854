-- ===== src/Crdt/OrSet/Convergence.antt =====
-- Merging observed-remove sets joins the add tags and the removals of each key: replicas converge.
use zendb.Prelude.{false, ◌↔◌, ◌≡◌, refl, ap, Ord, ok, IsSemilattice, wrap-IsSemilattice}
use zendb.Map.Merge.{merge_entries}
use zendb.Map.Merge.Join.{Valid}
use zendb.Map.Merge.Total.{loop-IsSemilattice, loop-false_iff}
use zendb.Crdt.Stamp.{MergeStamps}
use zendb.Crdt.OrSet.{OrSet, OrSetEntry, merge_both, merge}
use zendb.Crdt.OrSet.Entry.{
  IsOrdered, entry_changes, merge_both-join, entry_changes-false_iff, join_entry-IsSemilattice,
}

module _ {K S : Type 0} ⦃k : Ord K⦄ ⦃s : Ord S⦄ where
  -- The keys, and for each key its tags and removals, are in order.
  abbrev pub IsValid : OrSet K S → Type 0
  IsValid set = Valid (λ key. IsOrdered) set.entries

  entries-IsSemilattice :
      IsSemilattice
        (Valid {K = K} {V = OrSetEntry S} (λ key. IsOrdered))
        (λ a b. (merge_entries (λ (key : K). merge_both) false a b).0)
  entries-IsSemilattice =
      loop-IsSemilattice (λ (key : K). merge_both) entry_changes (λ key. merge_both-join)
        (λ key. entry_changes-false_iff) (λ key. join_entry-IsSemilattice)

  -- Merging replicas of an observed-remove set is commutative, associative and idempotent, and keeps
  -- the entries, tags and removals in order.
  pub or_set_merge-IsSemilattice :
      (st : MergeStamps S) → IsSemilattice IsValid (λ a b. (merge a b st).0)
  unfolding merge
  or_set_merge-IsSemilattice st =
      wrap-IsSemilattice (λ e. record { entries = e }) (λ set. set.entries) (λ e. refl)
        (λ set. refl) (λ set v. v) (λ e v. v) entries-IsSemilattice

  -- A merge of observed-remove sets reports `Ok(false)` exactly when it leaves the set as it was.
  pub or_set_merge_changed_iff :
      (a b : OrSet K S) (st : MergeStamps S)
      → IsValid a
      → IsValid b
      → ((merge a b st).1 ≡ ok false) ↔ ((merge a b st).0 ≡ a)
  unfolding merge
  or_set_merge_changed_iff a b st v w =
      let loop =
        loop-false_iff (λ (key : K). merge_both) entry_changes (λ key. merge_both-join)
          (λ key. entry_changes-false_iff) (λ key. join_entry-IsSemilattice) a.entries b.entries v
          w in
      (
        λ h i. record { entries = loop.0 h i },
        λ h. loop.1 (ap (λ (set : OrSet K S). set.entries) h),
      )
