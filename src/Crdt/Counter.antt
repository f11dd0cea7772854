-- ===== src/Crdt/Counter.antt =====
-- zendb-types/src/crdt/values/counter.rs: a PN-counter, one pair of u64 components for each peer. An
-- i64 and the i128 value are integers: i128 holds every sum of fewer than 2^63 differences of u64.
pub mod Convergence
pub mod Value
pub mod Bounds
use zendb.Prelude.{
  ℕ, zero, suc, ◌+◌, ◌^◌, Bool, true, false, ◌||◌, Option, none, some, List, [], ◌∷◌, if◌then◌else◌,
  ltb, Ord, nat_ord, gtb, Result, ok, err,
}
use zendb.Prelude.Int.{ℤ, pos, negsuc, sub_ℕ, ◌+ℤ◌}
use zendb.Map.{Map, lookup, insert}
use zendb.Map.Merge.{merge_entries}
use zendb.Crdt.Stamp.{EventStamp, MergeStamps}

pub record Counter (P : Type 0) : Type 0 where
  pub entries : Map P (ℕ × ℕ)

pub data CounterOp : Type 0 where
  add : ℤ → CounterOp

pub data CounterError : Type 0 where
  overflow : CounterError

module _ {P : Type 0} where
  unfoldable pub sum : Map P (ℕ × ℕ) → ℤ
  sum [] = pos 0
  sum ((peer, (p, n)) ∷ rest) = sub_ℕ p n +ℤ sum rest

  -- The sum of all peer contributions.
  unfoldable pub value : Counter P → ℤ
  unfolding sum
  value c = sum c.entries

-- `u64::checked_add`.
unfoldable pub checked_add : ℕ → ℕ → Option ℕ
checked_add a b = if ltb (a + b) (2 ^ 64) then some (a + b) else none

-- The pair with the positive or the negative component increased.
unfoldable pub increase_pos : ℕ × ℕ → ℕ → Option (ℕ × ℕ)
unfolding checked_add
increase_pos e n = elim (checked_add e.0 n) [ none ↦ none | some total ↦ some (total, e.1) ]

unfoldable pub increase_neg : ℕ × ℕ → ℕ → Option (ℕ × ℕ)
unfolding checked_add
increase_neg e n = elim (checked_add e.1 n) [ none ↦ none | some total ↦ some (e.0, total) ]

-- The body of the merge loop for a peer that both replicas have.
unfoldable pub merge_pair : ℕ × ℕ → ℕ × ℕ → (ℕ × ℕ) × Result CounterError Bool
merge_pair local remote =
    let c = gtb remote.0 local.0 in
    let d = gtb remote.1 local.1 in
    ((if c then remote.0 else local.0, if d then remote.1 else local.1), ok (c || d))

module _ {P : Type 0} ⦃p : Ord P⦄ where
  -- `entry(peer).or_default()`.
  unfoldable pub entry : Counter P → P → ℕ × ℕ
  entry self peer = elim (lookup peer self.entries) [ none ↦ (0, 0) | some e ↦ e ]

  -- The two branches: the incremented component, or an overflow after the default was inserted.
  unfoldable pub store :
      Counter P → P → ℕ × ℕ → Option (ℕ × ℕ) → Counter P × Result CounterError Bool
  store self peer old none = (record { entries = insert peer old self.entries }, err overflow)
  store self peer old (some new) = (record { entries = insert peer new self.entries }, ok true)

  unfoldable pub apply :
      Counter P → CounterOp → MergeStamps (EventStamp P) → Counter P × Result CounterError Bool
  unfolding entry store increase_pos increase_neg
  apply self (add (pos zero)) stamps = (self, ok false)
  apply self (add (pos (suc n))) stamps =
      let peer = stamps.incoming.id.peer_id in
      let e = entry self peer in store self peer e (increase_pos e (suc n))
  apply self (add (negsuc n)) stamps =
      let peer = stamps.incoming.id.peer_id in
      let e = entry self peer in store self peer e (increase_neg e (suc n))

  unfoldable pub merge :
      Counter P → Counter P → MergeStamps (EventStamp P) → Counter P × Result CounterError Bool
  merge self remote stamps =
      let (entries, result) =
        merge_entries (λ peer. merge_pair) false self.entries remote.entries in
      (record { entries = entries }, result)
