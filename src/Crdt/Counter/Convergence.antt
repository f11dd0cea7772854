-- ===== src/Crdt/Counter/Convergence.antt =====
-- Merging counters is the peerwise maximum: replicas converge, and components stay within u64.
use zendb.Prelude.{
  ℕ, ◌<◌, ◌^◌, Bool, false, ◌||◌, ◌↔◌, ◌≡◌, refl, ap, arith, Ord, nat_ord, gtb, max, later-max,
  gtb-false_iff, max_comm, max_assoc, max_idem, ok, IsSemilattice, wrap-IsSemilattice,
}
use zendb.Map.Merge.{merge_entries}
use zendb.Map.Merge.Join.{Valid}
use zendb.Map.Merge.Total.{loop-IsSemilattice, loop-false_iff}
use zendb.Crdt.Stamp.{EventStamp, MergeStamps}
use zendb.Crdt.Counter.{Counter, merge_pair, merge}

-- Both components are u64 values.
abbrev pub InRange : ℕ × ℕ → Type 0
InRange e = (e.0 < 2 ^ 64) × (e.1 < 2 ^ 64)

join_pair : ℕ × ℕ → ℕ × ℕ → ℕ × ℕ
join_pair a b = (max a.0 b.0, max a.1 b.1)

pair_changes : ℕ × ℕ → ℕ × ℕ → Bool
pair_changes a b = gtb b.0 a.0 || gtb b.1 a.1

merge_pair-join : (a b : ℕ × ℕ) → merge_pair a b ≡ (join_pair a b, ok (pair_changes a b))
unfolding merge_pair join_pair pair_changes
merge_pair-join a b = ground (arith, later-max a.0 b.0, later-max a.1 b.1)

pair_changes-false_iff : (a b : ℕ × ℕ) → (pair_changes a b ≡ false) ↔ (join_pair a b ≡ a)
unfolding join_pair pair_changes
pair_changes-false_iff a b = ground (arith, gtb-false_iff a.0 b.0, gtb-false_iff a.1 b.1)

join_pair-InRange : (a b : ℕ × ℕ) → InRange a → InRange b → InRange (join_pair a b)
unfolding join_pair max
join_pair-InRange a b p q = ground arith

join_pair-IsSemilattice : IsSemilattice InRange join_pair
unfolding join_pair
join_pair-IsSemilattice = record {
  closed = join_pair-InRange;
  comm = λ a b p q. cc (max_comm a.0 b.0, max_comm a.1 b.1);
  assoc = λ a b c p q r. cc (max_assoc a.0 b.0 c.0, max_assoc a.1 b.1 c.1);
  idem = λ a p. cc (max_idem a.0, max_idem a.1);
}

module _ {P : Type 0} ⦃p : Ord P⦄ where
  -- The entries are in peer order, as a `BTreeMap` keeps them, and are u64 pairs.
  abbrev pub IsValid : Counter P → Type 0
  IsValid c = Valid (λ peer. InRange) c.entries

  entries-IsSemilattice :
      IsSemilattice
        (Valid {K = P} (λ peer. InRange))
        (λ a b. (merge_entries (λ (peer : P). merge_pair) false a b).0)
  entries-IsSemilattice =
      loop-IsSemilattice (λ (peer : P). merge_pair) pair_changes
        (λ peer a b p q. merge_pair-join a b) (λ peer a b p q. pair_changes-false_iff a b)
        (λ peer. join_pair-IsSemilattice)

  -- Merging replicas of a counter is commutative, associative and idempotent, and keeps the entries
  -- in order and in the range of u64.
  pub counter_merge-IsSemilattice :
      (st : MergeStamps (EventStamp P)) → IsSemilattice IsValid (λ a b. (merge a b st).0)
  unfolding merge
  counter_merge-IsSemilattice st =
      wrap-IsSemilattice (λ e. record { entries = e }) (λ c. c.entries) (λ e. refl) (λ c. refl)
        (λ c v. v) (λ e v. v) entries-IsSemilattice

  -- A merge of counters reports `Ok(false)` exactly when it leaves the counter as it was.
  pub counter_merge_changed_iff :
      (a b : Counter P) (st : MergeStamps (EventStamp P))
      → IsValid a
      → IsValid b
      → ((merge a b st).1 ≡ ok false) ↔ ((merge a b st).0 ≡ a)
  unfolding merge
  counter_merge_changed_iff a b st v w =
      let loop =
        loop-false_iff (λ (peer : P). merge_pair) pair_changes (λ peer a b p q. merge_pair-join a b)
          (λ peer a b p q. pair_changes-false_iff a b) (λ peer. join_pair-IsSemilattice) a.entries
          b.entries v w in
      (λ h i. record { entries = loop.0 h i }, λ h. loop.1 (ap (λ (c : Counter P). c.entries) h))
