-- ===== src/Tests/Sets.antt =====
-- Sets: a run, and the theorems on it.
use zendb.Prelude.{ℕ, true, nat_ord, max, gtb, ◌≡◌, refl, [], ◌∷◌, IsSemilattice}
use zendb.Map.{lookup, insert}
use zendb.Map.Merge.{merge_entry, merge_entries}
use zendb.Crdt.Stamp.{EventStamp, stamp_ord, cmp}
use zendb.Crdt.Set
use zendb.Crdt.Set.{Set, SetOp}
use zendb.Crdt.Set.Convergence
use zendb.Crdt.Set.Apply
use zendb.Tests.Stamps.{at, origin, arriving}

program : Unit {0}
unfolding lookup insert merge_entry merge_entries stamp_ord cmp max Set.merge Set.merge_meta
    Set.apply Set.contains Set.is_live Set.default_meta Set.max_stamp
program = tt

abbrev left : Set ℕ (EventStamp ℕ)
left = record { entries = (7, record { updated = at 3 1; deleted = at 5 2 }) ∷ [] }

abbrev right : Set ℕ (EventStamp ℕ)
right = record {
  entries =
      (4, record { updated = at 2 2; deleted = origin })
      ∷ (7, record { updated = at 6 1; deleted = origin })
      ∷ [];
}

left-IsValid : Convergence.IsValid left
left-IsValid = (tt, tt)

right-IsValid : Convergence.IsValid right
right-IsValid = ((refl, tt), (tt, tt))

-- the later add of the right replica wins over the remove of the left one
merged : Set.contains (Set.merge left right (arriving 9 1)).0 7 ≡ true
unfolding program
merged = refl

set_merge-IsSemilattice_example :
    IsSemilattice (Convergence.IsValid {K = ℕ}) (λ a b. (Set.merge a b (arriving 9 1)).0)
set_merge-IsSemilattice_example = Convergence.set_merge-IsSemilattice (arriving 9 1)

apply-apply_example :
    (Set.apply origin
      (Set.apply origin left (SetOp.add 7) (arriving 9 1)).0
      (SetOp.remove 7)
      (arriving 8 2)).0
    ≡ (Set.apply origin
        (Set.apply origin left (SetOp.remove 7) (arriving 8 2)).0
        (SetOp.add 7)
        (arriving 9 1)).0
apply-apply_example =
    Apply.apply-apply origin left (SetOp.add 7) (SetOp.remove 7) (arriving 9 1) (arriving 8 2)
      left-IsValid

left_is_older : gtb (at 9 1) (Set.max_stamp origin left) ≡ true
unfolding program
left_is_older = refl
