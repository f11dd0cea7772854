-- ===== src/Map/Merge.antt =====
-- The loop `for (key, remote) in &remote.entries`, in which each CRDT value merges another replica
-- into itself: an entry that is there is merged in place, a missing one is copied.
pub mod Join
pub mod Loop
pub mod Convergence
pub mod Total
use zendb.Prelude.{Bool, true, ◌||◌, none, some, [], ◌∷◌, Ord, Result, ok, and_then}
use zendb.Map.Defs.{Map, lookup, insert}

module _ {ℓ κ μ} {K : Type ℓ} {V : Type κ} {E : Type μ} ⦃o : Ord K⦄ where
  -- One round: the map after it, and the change that the round reports. An error of the entry's
  -- own merge leaves what that merge wrote.
  unfoldable pub merge_entry :
      (K → V → V → V × Result E Bool) → K → V → Map K V → Map K V × Result E Bool
  merge_entry f k r m = elim (lookup k m) [
    | none ↦ (insert k r m, ok true)
    | some l ↦ (insert k (f k l r).0 m, (f k l r).1)
  ]

  -- The loop stops at the first error.
  unfoldable pub merge_entries :
      (K → V → V → V × Result E Bool) → Bool → Map K V → Map K V → Map K V × Result E Bool
  merge_entries f changed m [] = (m, ok changed)
  merge_entries f changed m ((k, r) ∷ rs) =
      and_then (merge_entry f k r m) (λ m' c. merge_entries f (changed || c) m' rs)
