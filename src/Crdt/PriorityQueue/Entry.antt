-- ===== src/Crdt/PriorityQueue/Entry.antt =====
-- Merging two entries of a priority queue that agree on what was pushed: they join.
use zendb.Prelude.{
  Bool, true, false, ◌↔◌, ◌≡◌, refl, ap, arith, Ord, gtb, max, later-max, gtb-false_iff, max_comm,
  max_assoc, max_idem, max-IsSemilattice, Option, none, some, PartialEq, ok, IsSemilattice, eqb_iff,
  Any,
}
use zendb.Prelude.Int.{ℤ, int_ord}
use zendb.Map.Merge.Join.{combine, OnSome}
use zendb.Map.Merge.Convergence.{combine_comm, combine_assoc}
use zendb.Crdt.PriorityQueue.{
  PqEntry, pending_pop, present, merge_clock, merge_required_clock, differs, merge_entry,
}

module _ {S : Type 0} ⦃s : Ord S⦄ where
  -- Whether the second stamp is news to the first.
  pub clock_changes : Option S → Option S → Bool
  clock_changes l none = false
  clock_changes none (some r) = true
  clock_changes (some l) (some r) = gtb r l

  pub merge_clock-join : (l r : Option S) → merge_clock l r ≡ (combine max l r, clock_changes l r)
  unfolding merge_clock clock_changes
  merge_clock-join none none = refl
  merge_clock-join (some l) none = refl
  merge_clock-join none (some r) = refl
  merge_clock-join (some l) (some r) = ground (arith, later-max l r)

  pub clock_changes-false_iff :
      (l r : Option S) → (clock_changes l r ≡ false) ↔ (combine max l r ≡ l)
  unfolding clock_changes
  clock_changes-false_iff none none = ground arith
  clock_changes-false_iff (some l) none = ground arith
  clock_changes-false_iff none (some r) = ground arith
  clock_changes-false_iff (some l) (some r) = ground (arith, gtb-false_iff l r)

  pub clock_comm : (a b : Option S) → combine max a b ≡ combine max b a
  clock_comm a b = combine_comm max-IsSemilattice a b (any a) (any b)
    where
      any : (o : Option S) → OnSome Any o
      any none = tt
      any (some x) = tt

  pub clock_assoc :
      (a b c : Option S) → combine max (combine max a b) c ≡ combine max a (combine max b c)
  clock_assoc a b c = combine_assoc max-IsSemilattice a b c (any a) (any b) (any c)
    where
      any : (o : Option S) → OnSome Any o
      any none = tt
      any (some x) = tt

  pub clock_idem : (a : Option S) → combine max a a ≡ a
  clock_idem none = refl
  clock_idem (some a) = ap some (max_idem a)

module _ {V : Type 0} ⦃v : PartialEq V⦄ where
  differs_same : (p q : ℤ) (x y : V) → p ≡ q → x ≡ y → differs p x q y ≡ false
  unfolding differs
  differs_same p q x y h k = ground (arith, eqb_iff p q, v.beq_iff x y)

module _ {V S : Type 0} ⦃v : PartialEq V⦄ ⦃s : Ord S⦄ where
  -- What is present is what was pushed.
  abbrev pub Agrees : ℤ × V → PqEntry V S → Type 0
  Agrees pushed (pending_pop d) = Unit
  Agrees pushed (present p x d) = (p ≡ pushed.0) × (x ≡ pushed.1)

  pub join_entry : PqEntry V S → PqEntry V S → PqEntry V S
  join_entry (pending_pop a) (pending_pop b) = pending_pop (max a b)
  join_entry (pending_pop a) (present p x d) = present p x (combine max d (some a))
  join_entry (present p x d) (pending_pop b) = present p x (combine max d (some b))
  join_entry (present p x d) (present q y e) = present p x (combine max d e)

  pub entry_changes : PqEntry V S → PqEntry V S → Bool
  entry_changes (pending_pop a) (pending_pop b) = gtb b a
  entry_changes (pending_pop a) (present p x d) = true
  entry_changes (present p x d) (pending_pop b) = clock_changes d (some b)
  entry_changes (present p x d) (present q y e) = clock_changes d e

  pub merge_entry-join :
      (id : S) (pushed : ℤ × V) (a b : PqEntry V S)
      → Agrees pushed a
      → Agrees pushed b
      → merge_entry id a b ≡ (join_entry a b, ok (entry_changes a b))
  unfolding merge_entry join_entry entry_changes merge_required_clock
  merge_entry-join id pushed (pending_pop a) (pending_pop b) h k = ground (arith, later-max a b)
  merge_entry-join id pushed (pending_pop a) (present p x d) h k =
      ground (arith, merge_clock-join d (some a))
  merge_entry-join id pushed (present p x d) (pending_pop b) h k =
      ground (arith, merge_clock-join d (some b))
  merge_entry-join id pushed (present p x d) (present q y e) h k =
      ground (arith, merge_clock-join d e, differs_same p q x y)

  pub entry_changes-false_iff :
      (a b : PqEntry V S) → (entry_changes a b ≡ false) ↔ (join_entry a b ≡ a)
  unfolding join_entry entry_changes
  entry_changes-false_iff (pending_pop a) (pending_pop b) = ground (arith, gtb-false_iff a b)
  entry_changes-false_iff (pending_pop a) (present p x d) = ground arith
  entry_changes-false_iff (present p x d) (pending_pop b) =
      ground (arith, clock_changes-false_iff d (some b))
  entry_changes-false_iff (present p x d) (present q y e) =
      ground (arith, clock_changes-false_iff d e)

  join_comm :
      (pushed : ℤ × V) (a b : PqEntry V S)
      → Agrees pushed a
      → Agrees pushed b
      → join_entry a b ≡ join_entry b a
  unfolding join_entry
  join_comm pushed (pending_pop a) (pending_pop b) h k = ap pending_pop (max_comm a b)
  join_comm pushed (pending_pop a) (present p x d) h k = refl
  join_comm pushed (present p x d) (pending_pop b) h k = refl
  join_comm pushed (present p x d) (present q y e) h k = ground (arith, clock_comm d e)

  join_assoc : (a b c : PqEntry V S) → join_entry (join_entry a b) c ≡ join_entry a (join_entry b c)
  unfolding join_entry
  join_assoc (pending_pop a) (pending_pop b) (pending_pop c) = ap pending_pop (max_assoc a b c)
  join_assoc (pending_pop a) (pending_pop b) (present p x d) =
      ground (arith, clock_assoc d (some b) (some a), max_comm a b)
  join_assoc (pending_pop a) (present p x d) (pending_pop c) =
      ground (arith, clock_assoc d (some a) (some c), clock_assoc d (some c) (some a), max_comm a c)
  join_assoc (pending_pop a) (present p x d) (present q y e) =
      ground (arith, clock_assoc d (some a) e, clock_assoc d e (some a), clock_comm (some a) e)
  join_assoc (present p x d) (pending_pop b) (pending_pop c) =
      ap (present p x) (clock_assoc d (some b) (some c))
  join_assoc (present p x d) (pending_pop b) (present q y e) =
      ground (arith, clock_assoc d (some b) e, clock_comm (some b) e)
  join_assoc (present p x d) (present q y e) (pending_pop c) =
      ap (present p x) (clock_assoc d e (some c))
  join_assoc (present p x d) (present q y e) (present r z f) = ap (present p x) (clock_assoc d e f)

  join_idem : (a : PqEntry V S) → join_entry a a ≡ a
  unfolding join_entry
  join_idem (pending_pop a) = ap pending_pop (max_idem a)
  join_idem (present p x d) = ap (present p x) (clock_idem d)

  join_closed :
      (pushed : ℤ × V) (a b : PqEntry V S)
      → Agrees pushed a
      → Agrees pushed b
      → Agrees pushed (join_entry a b)
  unfolding join_entry
  join_closed pushed (pending_pop a) (pending_pop b) h k = tt
  join_closed pushed (pending_pop a) (present p x d) h k = k
  join_closed pushed (present p x d) (pending_pop b) h k = h
  join_closed pushed (present p x d) (present q y e) h k = h

  pub join_entry-IsSemilattice : (pushed : ℤ × V) → IsSemilattice (Agrees pushed) join_entry
  join_entry-IsSemilattice pushed = record {
    closed = join_closed pushed;
    comm = join_comm pushed;
    assoc = λ a b c h k l. join_assoc a b c;
    idem = λ a h. join_idem a;
  }
