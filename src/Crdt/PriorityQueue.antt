-- ===== src/Crdt/PriorityQueue.antt =====
-- zendb-types/src/crdt/values/priority_queue.rs: a replicated min-heap. An element has the stamp of
-- its push for its identity. The values are any type with a decided equality; a priority (i64) is an
-- integer.
pub mod Entry
pub mod Convergence
pub mod Delivery
use zendb.Prelude.{
  Bool, true, false, ◌||◌, not, Option, none, some, List, [], ◌∷◌, if◌then◌else◌, Ord, gtb, eqb,
  max, PartialEq, Result, ok, err, then_cmp, Ordering,
}
use zendb.Prelude.Int.{ℤ, int_ord}
use zendb.Map.{Map, lookup, insert}
use zendb.Map.Merge.{merge_entries}
use zendb.Crdt.Stamp.{MergeStamps}

pub data PqEntry (V S : Type 0) : Type 0 where
  pending_pop : S → PqEntry V S
  present : ℤ → V → Option S → PqEntry V S

pub record PriorityQueue (V S : Type 0) : Type 0 where
  pub entries : Map S (PqEntry V S)

pub data PqOp (V S : Type 0) : Type 0 where
  push : ℤ → V → PqOp V S
  pop : S → PqOp V S

pub data PqError (S : Type 0) : Type 0 where
  push_conflict : S → PqError S

module _ {S : Type 0} ⦃s : Ord S⦄ where
  -- The later of two optional removal stamps, and whether it is news to the first.
  unfoldable pub merge_clock : Option S → Option S → Option S × Bool
  merge_clock local none = (local, false)
  merge_clock none (some remote) = (some remote, true)
  merge_clock (some current) (some remote) =
      if gtb remote current then (some remote, true) else (some current, false)

  unfoldable pub merge_required_clock : S → S → S × Bool
  merge_required_clock current incoming =
      if gtb incoming current then (incoming, true) else (current, false)

module _ {V : Type 0} ⦃v : PartialEq V⦄ where
  -- `local_priority != remote_priority || local_value != remote_value`.
  unfoldable pub differs : ℤ → V → ℤ → V → Bool
  unfolding int_ord
  differs p x q y = not (eqb p q) || not (v.beq x y)

module _ {V S : Type 0} ⦃v : PartialEq V⦄ ⦃s : Ord S⦄ where
  unfoldable pub merge_entry : S → PqEntry V S → PqEntry V S → PqEntry V S × Result (PqError S) Bool
  merge_entry id (pending_pop local) (pending_pop remote) =
      let (at, changed) = merge_required_clock local remote in (pending_pop at, ok changed)
  merge_entry id (pending_pop local) (present priority value deleted_at) =
      (present priority value (merge_clock deleted_at (some local)).0, ok true)
  merge_entry id (present priority value deleted_at) (pending_pop remote) =
      let (at, changed) = merge_clock deleted_at (some remote) in
      (present priority value at, ok changed)
  merge_entry id (present p x local_deleted) (present q y remote_deleted) =
      let (at, changed) = merge_clock local_deleted remote_deleted in
      if differs p x q y
      then (present p x local_deleted, err (push_conflict id))
      else (present p x at, ok changed)

  unfoldable pub merge :
      PriorityQueue V S
      → PriorityQueue V S
      → MergeStamps S
      → PriorityQueue V S × Result (PqError S) Bool
  merge self remote stamps =
      let (entries, result) = merge_entries merge_entry false self.entries remote.entries in
      (record { entries = entries }, result)

  -- A push at the stamp `id`, by what the queue has there.
  unfoldable pub push_at :
      S
      → ℤ
      → V
      → Map S (PqEntry V S)
      → Option (PqEntry V S)
      → Map S (PqEntry V S) × Result (PqError S) Bool
  push_at id priority value m none = (insert id (present priority value none) m, ok true)
  push_at id priority value m (some (pending_pop deleted_at)) =
      (insert id (present priority value (some deleted_at)) m, ok true)
  push_at id priority value m (some (present p x d)) =
      if differs p x priority value then (m, err (push_conflict id)) else (m, ok false)

  -- A pop of the element `id` at the stamp `at`, by what the queue has there.
  unfoldable pub pop_at :
      S
      → S
      → Map S (PqEntry V S)
      → Option (PqEntry V S)
      → Map S (PqEntry V S) × Result (PqError S) Bool
  pop_at at id m none = (insert id (pending_pop at) m, ok true)
  pop_at at id m (some (pending_pop deleted_at)) =
      let (d, changed) = merge_required_clock deleted_at at in
      (insert id (pending_pop d) m, ok changed)
  pop_at at id m (some (present p x deleted_at)) =
      let (d, changed) = merge_clock deleted_at (some at) in
      (insert id (present p x d) m, ok changed)

  unfoldable pub apply :
      PriorityQueue V S → PqOp V S → MergeStamps S → PriorityQueue V S × Result (PqError S) Bool
  unfolding push_at pop_at
  apply self (PqOp.push priority value) stamps =
      let id = stamps.incoming in
      let (entries, result) = push_at id priority value self.entries (lookup id self.entries) in
      (record { entries = entries }, result)
  apply self (PqOp.pop id) stamps =
      let (entries, result) = pop_at stamps.incoming id self.entries (lookup id self.entries) in
      if gtb stamps.incoming id then (record { entries = entries }, result) else (self, ok false)

module _ {V S : Type 0} ⦃s : Ord S⦄ where
  -- The live elements, in the order of their stamps.
  unfoldable pub live_entries : Map S (PqEntry V S) → List (ℤ × S × V)
  live_entries [] = []
  live_entries ((id, present p x none) ∷ m) = (p, id, x) ∷ live_entries m
  live_entries ((id, present p x (some d)) ∷ m) = live_entries m
  live_entries ((id, pending_pop d) ∷ m) = live_entries m

  -- `(priority, stamp)`, lexicographically.
  unfoldable pub cmp_element : ℤ × S × V → ℤ × S × V → Ordering
  unfolding int_ord
  cmp_element a b = then_cmp (int_ord.cmp a.0 b.0) (s.cmp a.1 b.1)

  -- `sort_by`, as the insertion sort, which is stable too.
  unfoldable pub insert_sorted : ℤ × S × V → List (ℤ × S × V) → List (ℤ × S × V)
  insert_sorted e [] = e ∷ []
  insert_sorted e (f ∷ l) = elim (cmp_element e f) [
    | Ordering.gt ↦ f ∷ insert_sorted e l
    | _ ↦ e ∷ f ∷ l
  ]

  unfoldable pub sort : List (ℤ × S × V) → List (ℤ × S × V)
  sort [] = []
  sort (e ∷ l) = insert_sorted e (sort l)

  -- All live elements in priority order.
  unfoldable pub live : PriorityQueue V S → List (ℤ × S × V)
  unfolding live_entries sort insert_sorted cmp_element
  live q = sort (live_entries q.entries)

  -- `Iterator::min`: the first of the least elements.
  unfoldable pub min_from : ℤ × S × V → List (ℤ × S × V) → ℤ × S × V
  min_from best [] = best
  min_from best (e ∷ l) = min_from (elim (cmp_element best e) [ Ordering.gt ↦ e | _ ↦ best ]) l

  unfoldable pub pop_of : List (ℤ × S × V) → Option (PqOp V S)
  pop_of [] = none
  pop_of (e ∷ l) = some (PqOp.pop (min_from e l).1)

  -- The operation that pops the least live element of this replica.
  unfoldable pub pop_op : PriorityQueue V S → Option (PqOp V S)
  unfolding live_entries pop_of min_from cmp_element
  pop_op q = pop_of (live_entries q.entries)

  -- The removal stamp of an entry, or the zero stamp.
  unfoldable pub deleted_stamp : S → PqEntry V S → S
  deleted_stamp zero (pending_pop d) = d
  deleted_stamp zero (present p x none) = zero
  deleted_stamp zero (present p x (some d)) = d

  unfoldable pub max_stamps : S → S → Map S (PqEntry V S) → S
  unfolding deleted_stamp
  max_stamps zero acc [] = acc
  max_stamps zero acc ((id, e) ∷ m) = max_stamps zero (max (max acc id) (deleted_stamp zero e)) m

  unfoldable pub max_stamp : S → PriorityQueue V S → S
  unfolding max_stamps
  max_stamp zero q = max_stamps zero zero q.entries
