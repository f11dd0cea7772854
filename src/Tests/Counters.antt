-- ===== src/Tests/Counters.antt =====
-- Counters: a run, and the theorems on it.
use zendb.Prelude.{ℕ, nat_ord, ◌≡◌, refl, arith, [], ◌∷◌, ok, IsSemilattice, max}
use zendb.Prelude.Int.{pos, negsuc, ◌+ℤ◌}
use zendb.Map.{lookup, insert}
use zendb.Map.Merge.{merge_entry, merge_entries}
use zendb.Crdt.Counter
use zendb.Crdt.Counter.{Counter, CounterOp}
use zendb.Crdt.Counter.Convergence
use zendb.Crdt.Counter.Value
use zendb.Tests.Stamps.{arriving}

program : Unit {0}
unfolding lookup insert merge_entry merge_entries max Counter.merge Counter.merge_pair Counter.apply
    Counter.value ◌+ℤ◌
program = tt

abbrev left : Counter ℕ
left = record { entries = (1, (5, 2)) ∷ [] }

abbrev right : Counter ℕ
right = record { entries = (1, (3, 4)) ∷ (2, (10, 0)) ∷ [] }

left-IsValid : Convergence.IsValid left
left-IsValid = ((tt, tt), (omega arith, tt))

right-IsValid : Convergence.IsValid right
right-IsValid = (((refl, tt), (tt, tt)), (omega arith, (omega arith, tt)))

merged : Counter.value (Counter.merge left right (arriving 9 1)).0 ≡ pos 11
unfolding program
merged = refl

counter_merge-IsSemilattice_example :
    IsSemilattice (Convergence.IsValid {P = ℕ}) (λ a b. (Counter.merge a b (arriving 9 1)).0)
counter_merge-IsSemilattice_example = Convergence.counter_merge-IsSemilattice (arriving 9 1)

entry-left : (Counter.entry left 1).1 ≡ 2
unfolding program Counter.entry
entry-left = refl

entry-left_pos : (Counter.entry left 1).0 ≡ 5
unfolding program Counter.entry
entry-left_pos = refl

value-apply_fits_example :
    ((Counter.apply left (CounterOp.add (negsuc 6)) (arriving 9 1)).1
      ≡ ok (Value.is_nonzero (negsuc 6)))
    × (Counter.value (Counter.apply left (CounterOp.add (negsuc 6)) (arriving 9 1)).0
        ≡ Counter.value left +ℤ negsuc 6)
value-apply_fits_example =
    Value.value-apply_fits left (negsuc 6) (arriving 9 1) left-IsValid
      (omega (arith, entry-left_pos)) (omega (arith, entry-left))
