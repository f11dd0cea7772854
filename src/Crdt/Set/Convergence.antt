-- ===== src/Crdt/Set/Convergence.antt =====
-- Merging sets is the join of their clock pairs: replicas converge.
use zendb.Prelude.{
  Bool, false, ◌||◌, ◌↔◌, ◌≡◌, refl, ap, wrap-IsSemilattice, arith, Ord, gtb, max, later-max,
  gtb-false_iff, ok, Any, IsSemilattice, max_comm, max_assoc, max_idem,
}
use zendb.Map.{IsSorted}
use zendb.Map.Merge.Join.{Each-any, Valid}
use zendb.Map.Merge.{merge_entries}
use zendb.Map.Merge.Total.{loop-IsSemilattice, loop-false_iff}
use zendb.Crdt.Stamp.{MergeStamps}
use zendb.Crdt.Set.{Meta, Set, merge_meta, merge}

module _ {S : Type 0} ⦃s : Ord S⦄ where
  -- both clocks advance to the later one
  join_meta : Meta S → Meta S → Meta S
  join_meta a b = record { updated = max a.updated b.updated; deleted = max a.deleted b.deleted }

  meta_changes : Meta S → Meta S → Bool
  meta_changes a b = gtb b.updated a.updated || gtb b.deleted a.deleted

  merge_meta-join : (a b : Meta S) → merge_meta a b ≡ (join_meta a b, ok (meta_changes a b))
  unfolding merge_meta join_meta meta_changes
  merge_meta-join a b = ground (arith, later-max a.updated b.updated, later-max a.deleted b.deleted)

  meta_changes-false_iff : (a b : Meta S) → (meta_changes a b ≡ false) ↔ (join_meta a b ≡ a)
  unfolding join_meta meta_changes
  meta_changes-false_iff a b =
      ground (arith, gtb-false_iff a.updated b.updated, gtb-false_iff a.deleted b.deleted)

  join_meta-IsSemilattice : IsSemilattice Any join_meta
  unfolding join_meta
  join_meta-IsSemilattice = record {
    closed = λ a b p q. tt;
    comm = λ a b p q. cc (max_comm a.updated b.updated, max_comm a.deleted b.deleted);
    assoc = λ a b c p q r.
        cc (max_assoc a.updated b.updated c.updated, max_assoc a.deleted b.deleted c.deleted);
    idem = λ a p. cc (max_idem a.updated, max_idem a.deleted);
  }

module _ {K S : Type 0} ⦃k : Ord K⦄ ⦃s : Ord S⦄ where
  -- The entries are in key order, as a `BTreeMap` keeps them.
  abbrev pub IsValid : Set K S → Type 0
  IsValid set = IsSorted set.entries

  entries-IsSemilattice :
      IsSemilattice
        (Valid {K = K} {V = Meta S} (λ key. Any))
        (λ a b. (merge_entries (λ (key : K). merge_meta) false a b).0)
  entries-IsSemilattice =
      loop-IsSemilattice (λ (key : K). merge_meta) meta_changes (λ key a b p q. merge_meta-join a b)
        (λ key a b p q. meta_changes-false_iff a b) (λ key. join_meta-IsSemilattice)

  -- Merging replicas of a set is commutative, associative and idempotent and keeps the entries in
  -- order, whatever stamps the merges run under.
  pub set_merge-IsSemilattice :
      (st : MergeStamps S) → IsSemilattice IsValid (λ a b. (merge a b st).0)
  unfolding merge
  set_merge-IsSemilattice st =
      wrap-IsSemilattice (λ e. record { entries = e }) (λ set. set.entries) (λ e. refl)
        (λ set. refl) (λ set v. (v, Each-any set.entries)) (λ e v. v.0) entries-IsSemilattice

  -- A merge of sets reports `Ok(false)` exactly when it leaves the set as it was.
  pub set_merge_changed_iff :
      (a b : Set K S) (st : MergeStamps S)
      → IsValid a
      → IsValid b
      → ((merge a b st).1 ≡ ok false) ↔ ((merge a b st).0 ≡ a)
  unfolding merge
  set_merge_changed_iff a b st p q =
      let loop =
        loop-false_iff (λ (key : K). merge_meta) meta_changes (λ key a b p q. merge_meta-join a b)
          (λ key a b p q. meta_changes-false_iff a b) (λ key. join_meta-IsSemilattice) a.entries
          b.entries (p, Each-any a.entries) (q, Each-any b.entries) in
      (λ h i. record { entries = loop.0 h i }, λ h. loop.1 (ap (λ (set : Set K S). set.entries) h))
