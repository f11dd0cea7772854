-- ===== src/Tests/Queues.antt =====
-- Priority queues: a run, and the theorems on it.
use zendb.Prelude.{ℕ, nat_ord, ord_eq, ◌≡◌, refl, [], ◌∷◌, some, none, IsSemilattice, max}
use zendb.Prelude.Int.{ℤ, pos, int_ord}
use zendb.Map.{lookup, insert}
use zendb.Map.Merge.{merge_entry, merge_entries}
use zendb.Crdt.Stamp.{EventStamp, stamp_ord, cmp}
use zendb.Crdt.PriorityQueue
use zendb.Crdt.PriorityQueue.{PriorityQueue, PqOp, present, pending_pop}
use zendb.Crdt.PriorityQueue.Convergence
use zendb.Tests.Stamps.{at, arriving}

program : Unit {0}
unfolding lookup insert merge_entry merge_entries max stamp_ord cmp int_ord PriorityQueue.merge
    PriorityQueue.merge_entry PriorityQueue.differs PriorityQueue.merge_clock
    PriorityQueue.merge_required_clock PriorityQueue.apply PriorityQueue.pop_op
program = tt

-- What the peers pushed: the priority and the value are the time of the push.
abbrev pushed : EventStamp ℕ → ℤ × ℕ
pushed id = (pos id.time.physical_ms, id.time.physical_ms)

abbrev left : PriorityQueue ℕ (EventStamp ℕ)
left = record { entries = (at 3 1, present (pos 3) 3 none) ∷ (at 4 1, pending_pop (at 6 1)) ∷ [] }

abbrev right : PriorityQueue ℕ (EventStamp ℕ)
right = record {
  entries = (at 3 1, present (pos 3) 3 (some (at 5 2))) ∷ (at 4 1, present (pos 4) 4 none) ∷ [];
}

left-IsValid : Convergence.IsValid pushed left
unfolding stamp_ord cmp
left-IsValid = (((refl, tt), (tt, tt)), ((refl, refl), (tt, tt)))

right-IsValid : Convergence.IsValid pushed right
unfolding stamp_ord cmp
right-IsValid = (((refl, tt), (tt, tt)), ((refl, refl), ((refl, refl), tt)))

least : PriorityQueue.pop_op left ≡ some (PqOp.pop (at 3 1))
unfolding program
least = refl

-- the two pops have removed both elements
drained : PriorityQueue.pop_op (PriorityQueue.merge left right (arriving 9 1)).0 ≡ none
unfolding program
drained = refl

pq_merge-IsSemilattice_example :
    IsSemilattice (Convergence.IsValid pushed) (λ a b. (PriorityQueue.merge a b (arriving 9 1)).0)
pq_merge-IsSemilattice_example = Convergence.pq_merge-IsSemilattice pushed (arriving 9 1)
